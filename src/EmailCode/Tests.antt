-- ===== src/EmailCode/Tests.antt =====
-- The theorems of the email codes at concrete calls. The hash of the tests is the text itself.
use combox_backend.Prelude.{true, false, none, some, List, [], ◌∷◌, ◌≡◌, refl, subst, arith}
use combox_backend.Prelude.Text.{trim_space}
use combox_backend.Prelude.Dict.{lookup}
use combox_backend.EmailCode.{
  Std, CodeEntry, Config, Service, ok, new_service, send_code, verify_code, code_hash, byte_length,
  normalize_email, prune,
}
use combox_backend.EmailCode.Stages.{IsStaged}
use combox_backend.EmailCode.Runs.{Call, sends, verifies, issues, after_all, after_all-IsStaged}
use combox_backend.EmailCode.Spec.{idle}
use combox_backend.EmailCode.Spec.Runs.{replies, due_replies, replies-due_replies}
use combox_backend.EmailCode.Verifying.{verify_code-send_code}
use combox_backend.EmailCode.Guessing.{guess_all, guesses-lock}

abbrev std : Std
std = record { to_lower = λ s. s; parse_address = λ s. true; sha256_hex = λ s. s }

abbrev cfg : Config
cfg = record { code_ttl = 10; verified_ttl = 20; max_attempts = 2 }

abbrev calls : List Call
calls =
    sends 0 "a@b.c" false (some "123456") (some "x") none none
    ∷ verifies 1 "a@b.c" "654321"
    ∷ verifies 2 "a@b.c" "123456"
    ∷ issues 3 "a@b.c" (some "key") (some "y")
    ∷ []

after_all-IsStaged_example : IsStaged cfg (after_all std cfg new_service calls)
after_all-IsStaged_example = after_all-IsStaged std cfg calls (omega arith)

abbrev entry : CodeEntry
entry = record { hash = "x:123456"; salt = "x"; expires_at = 10; attempts = 0 }

abbrev sent : Service
sent = record { codes = ("a@b.c", entry) ∷ []; verified = []; login_key = [] }

sent_reached :
    after_all std cfg new_service (sends 0 "a@b.c" false (some "123456") (some "x") none none ∷ [])
    ≡ sent
unfolding after_all prune
sent_reached = refl

sent-IsStaged : IsStaged cfg sent
sent-IsStaged = subst (IsStaged cfg) sent_reached (
    after_all-IsStaged std cfg (sends 0 "a@b.c" false (some "123456") (some "x") none none ∷ [])
      (omega arith))

-- The right code twice, a code for another address, and a login key, after two wrong guesses.
abbrev later : List Call
later =
    verifies 3 "a@b.c" "123456"
    ∷ sends 3 "d@e.f" false (some "777777") (some "y") none none
    ∷ issues 4 "a@b.c" (some "k") (some "z")
    ∷ []

guesses-lock_example :
    (verify_code std cfg
      (after_all std cfg
        (guess_all std cfg sent "a@b.c" ((1, "111111") ∷ (2, "222222") ∷ []))
        later)
      5
      " a@b.c"
      "123456").1
    ≡ ok false
unfolding trim_space normalize_email lookup code_hash byte_length
guesses-lock_example =
    guesses-lock std cfg sent "a@b.c" "a@b.c" entry ((1, "111111") ∷ (2, "222222") ∷ []) later 5
      " a@b.c" "123456" sent-IsStaged refl refl ((refl, refl), ((refl, refl), tt)) (omega arith)
      (tt, (refl, (tt, tt))) refl

verify_code-send_code_example :
    (verify_code std cfg
      (send_code std cfg new_service 0 "a@b.c" false (some "123456") (some "x") none none).0
      5
      "a@b.c"
      "123456").1
    ≡ ok true
unfolding trim_space normalize_email byte_length
verify_code-send_code_example =
    (verify_code-send_code std cfg new_service 0 5 20 "a@b.c" "a@b.c" false "123456" "123456" "x"
      none none (omega arith) refl refl refl (omega arith) (omega arith)).0

replies-due_replies_example :
    replies std cfg new_service calls ≡ due_replies std cfg (λ x. idle) calls
replies-due_replies_example =
    replies-due_replies std cfg calls (omega arith, (omega arith, (omega arith, (omega arith, tt))))
