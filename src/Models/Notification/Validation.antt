-- ===== src/Models/Notification/Validation.antt =====
-- What Validate of internal/models/notification.go accepts.
use engine_api_workflow.Common.{
  ltb, ℕ, ◌*◌, ◌≤◌, ◌≡◌, refl, ◌↔◌, pos, ◌≤ℤ◌, Bool, true, false, not, ◌&&◌, List, [], ◌∷◌, ◌++◌,
  none, All, any, arith, length, str_eq, is_empty,
}
use engine_api_workflow.Models.Notification.{
  EmailNotification, ValidationError, first_error, guards, validate, total_size, is_past,
  max_email_recipients, max_subject_length, max_body_length, max_attachments, max_attachment_size,
}
use engine_api_workflow.Models.Notification.Pattern.{matches_email, is_blank, byte_length}

first_error_iff :
    (l : List (Bool × ValidationError)) → (first_error l ≡ none) ↔ All (λ x. x.0 ≡ false) l
first_error_iff [] = (λ h. tt, λ h. refl)
first_error_iff ((true, e) ∷ l) =
    (λ h. absurd (ground (arith, h)), λ h. absurd (ground (arith, h.0)))
first_error_iff ((false, e) ∷ l) =
    let (forth, back) = first_error_iff l in (λ h. (refl, forth h), λ h. back h.1)

any-false_iff {ℓ} :
    {A : Type ℓ} (p : A → Bool) (l : List A) → (any p l ≡ false) ↔ All (λ x. p x ≡ false) l
any-false_iff p [] = (λ h. tt, λ h. refl)
any-false_iff p (x ∷ l) =
    let (forth, back) = any-false_iff p l in
    (
      λ h. (ground (arith, h), forth (ground (arith, h))),
      λ (h, all). let rest = back all in ground (arith, h, rest),
    )

All-map {ℓ κ μ} :
    {A : Type ℓ} (P : A → Type κ) (Q : A → Type μ) (f : (x : A) → P x → Q x) (l : List A)
    → All P l
    → All Q l
All-map P Q f [] h = tt
All-map P Q f (x ∷ l) (h, all) = (f x h, All-map P Q f l all)

-- It can be sent as it stands.
abbrev pub IsSendable : ℕ → EmailNotification → Type 0
IsSendable now n =
    ((is_empty n.to ≡ false) × (length n.to ≤ max_email_recipients))
    × All (λ e. matches_email e ≡ true) (n.to ++ n.cc ++ n.bcc)
    × ((is_blank n.subject ≡ false) × (byte_length n.subject ≤ max_subject_length))
    × ((is_blank n.body && str_eq n.template_name "") ≡ false)
    × (byte_length n.body ≤ max_body_length)
    × ((length n.attachments ≤ max_attachments)
        × All (λ a. a.size ≤ max_attachment_size) n.attachments
        × (total_size n.attachments ≤ max_attachment_size * 2))
    × ((pos 1 ≤ℤ n.max_attempts) × (n.max_attempts ≤ℤ pos 10))
    × (is_past now n.scheduled_at ≡ false)

-- Validate accepts a notification exactly when it has a recipient and at most 100, all its addresses
-- have the form of one, its subject is not blank and of at most 200 bytes, it has a body that is not
-- blank or a template, its body is of at most a million bytes, it has at most ten attachments, each of at
-- most 25 MB and together of at most 50 MB, allows one to ten attempts, and is not scheduled in the past.
pub validate_iff : (now : ℕ) (n : EmailNotification) → (validate now n ≡ none) ↔ IsSendable now n
unfolding validate
validate_iff now n =
    let (forth, back) = first_error_iff (guards now n) in
    let (addresses, addresses_back) =
      any-false_iff (λ e. not (matches_email e)) (n.to ++ n.cc ++ n.bcc) in
    let (sizes, sizes_back) = any-false_iff (λ a. ltb max_attachment_size a.size) n.attachments in
    (
      λ h.
          let (a, (b, (c, (d, (e, (f, (g, (i, (j, (k, (l, (m, u)))))))))))) = forth h in
          (
            (a, ground (arith, b)),
            All-map _ _ (λ x y. ground (arith, y)) _ (addresses c),
            (d, ground (arith, e)),
            f,
            ground (arith, g),
            (
              ground (arith, i),
              All-map _ _ (λ x y. ground (arith, y)) _ (sizes j),
              ground (arith, k),
            ),
            (ground (arith, l), ground (arith, l)),
            m,
          ),
      λ ((a, b), c, (d, e), f, g, (i, j, k), (l, l'), m). back (
        a,
        (
          ground (arith, b),
          (
            addresses_back (All-map _ _ (λ x y. ground (arith, y)) _ c),
            (
              d,
              (
                ground (arith, e),
                (
                  f,
                  (
                    ground (arith, g),
                    (
                      ground (arith, i),
                      (
                        sizes_back (All-map _ _ (λ x y. ground (arith, y)) _ j),
                        (ground (arith, k), (ground (arith, l, l'), (m, tt))),
                      ),
                    ),
                  ),
                ),
              ),
            ),
          ),
        ),
      ),
    )
