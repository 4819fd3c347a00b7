-- ===== src/EmailCode/Guessing.antt =====
-- internal/service/emailcode/service.go: `VerifyCode` allows a bounded number of guesses.
use combox_backend.Prelude.{
  ℕ, ◌+◌, ◌≤◌, ◌<◌, suc, String, Bool, false, not, ◌==◌, eqb, leb, ltb, if_both, eq_refl, none,
  some, List, [], ◌∷◌, All, length, ◌≡◌, refl, arith,
}
use combox_backend.Prelude.Text.{trim_space}
use combox_backend.Prelude.Dict.{lookup, erase, lookup-insert, lookup-erase}
use combox_backend.EmailCode.{
  Std, CodeEntry, Config, Service, Result, ok, on_email, normalize_email, prune_verified, missed,
  verify_entry, verify_trimmed, verify_code, code_hash, byte_length,
}
use combox_backend.EmailCode.Stages.{IsStaged}
use combox_backend.EmailCode.Runs.{Call, after_all}
use combox_backend.EmailCode.Locked.{IsSpared, after_all-HasNoCode}

module _ (std : Std) (cfg : Config) where
  -- Guesses for one email, each at its time.
  pub guess_all : Service → String → List (ℕ × String) → Service
  unfolding verify_code
  guess_all s email [] = s
  guess_all s email ((now, code) ∷ guesses) =
      guess_all (verify_code std cfg s now email code).0 email guesses

  -- A guess of six bytes that does not match an entry.
  abbrev pub IsWrong : CodeEntry → ℕ × String → Type 0
  IsWrong entry (now, code) =
      (byte_length (trim_space code) ≡ 6)
      × ((code_hash std cfg entry.salt (trim_space code) == entry.hash) ≡ false)

  -- What is left for an address: nothing, or a code that wrong guesses use up.
  data IsLocking (address : String) (guesses : List (ℕ × String)) (s : Service) : Type 0 where
    gone : lookup address s.codes ≡ none → IsLocking address guesses s
    held :
        (entry : CodeEntry)
        → lookup address s.codes ≡ some entry
        → All (IsWrong entry) guesses
        → entry.attempts < cfg.max_attempts
        → cfg.max_attempts ≤ entry.attempts + length guesses
        → IsLocking address guesses s

  missed-IsLocking :
      (address : String) (guesses : List (ℕ × String)) (s : Service) (entry : CodeEntry)
      → All (IsWrong entry) guesses
      → cfg.max_attempts ≤ suc (entry.attempts + length guesses)
      → IsLocking address guesses (missed std cfg s address entry)
  unfolding missed
  missed-IsLocking address guesses s entry wrong enough =
      if_both (IsLocking address guesses) (leb cfg.max_attempts (suc entry.attempts))
        (λ last. gone (ground (arith, lookup-erase address address s.codes, eq_refl address)))
        (λ more.
          held (record entry { attempts = suc entry.attempts })
            (ground (
              arith,
              lookup-insert address address (record entry { attempts = suc entry.attempts })
                  s.codes,
              eq_refl address,
            ))
            wrong (ground arith) (omega (arith, enough)))

  entry-IsLocking :
      (address : String) (now : ℕ) (code : String) (guesses : List (ℕ × String)) (s : Service)
      (entry : CodeEntry)
      → IsWrong entry (now, code)
      → All (IsWrong entry) guesses
      → cfg.max_attempts ≤ suc (entry.attempts + length guesses)
      → IsLocking address guesses
          (verify_entry std cfg s now address (trim_space code) (some entry)).0
  unfolding verify_entry
  entry-IsLocking address now code guesses s entry wrong others enough =
      let left : lookup address (erase address s.codes) ≡ none =
        ground (arith, lookup-erase address address s.codes, eq_refl address) in
      if_both {A = Service × Result Bool} (λ out. IsLocking address guesses out.0)
        (ltb entry.expires_at now) (λ old. gone left)
        (λ fresh.
          if_both {A = Service × Result Bool} (λ out. IsLocking address guesses out.0)
            (leb cfg.max_attempts entry.attempts) (λ full. gone left)
            (λ few. rw (wrong.1) (missed-IsLocking address guesses s entry others enough)))

  pub verify_code-none :
      (s : Service) (now : ℕ) (email address code : String)
      → normalize_email std cfg email ≡ some address
      → lookup address s.codes ≡ none
      → ((verify_code std cfg s now email code).1 ≡ ok false)
        × (lookup address (verify_code std cfg s now email code).0.codes ≡ none)
  unfolding verify_code on_email verify_trimmed verify_entry
  verify_code-none s now email address code known e = rw (known) (
      if_both {A = Service × Result Bool}
        (λ out. (out.1 ≡ ok false) × (lookup address out.0.codes ≡ none))
        (not (eqb (byte_length (trim_space code)) 6)) (λ short. (refl, e))
        (λ whole. rw e (refl, e)))

  guess-IsLocking :
      (s : Service) (now : ℕ) (email address code : String) (guesses : List (ℕ × String))
      → normalize_email std cfg email ≡ some address
      → IsLocking address ((now, code) ∷ guesses) s
      → IsLocking address guesses (verify_code std cfg s now email code).0
  unfolding verify_code on_email verify_trimmed
  guess-IsLocking s now email address code guesses known (gone e) =
      gone (verify_code-none s now email address code known e).1
  guess-IsLocking s now email address code guesses known (held entry e wrong few enough) =
      rw (known, wrong.0.0, e)
        (entry-IsLocking address now code guesses (prune_verified now s) entry wrong.0 wrong.1
          (omega (arith, enough)))

  all-IsLocking :
      (s : Service) (email address : String) (guesses : List (ℕ × String))
      → normalize_email std cfg email ≡ some address
      → IsLocking address guesses s
      → lookup address (guess_all s email guesses).codes ≡ none
  unfolding guess_all
  all-IsLocking s email address [] known (gone e) = e
  all-IsLocking s email address [] known (held entry e wrong few enough) = ground arith
  all-IsLocking s email address ((now, code) ∷ guesses) known h =
      all-IsLocking (verify_code std cfg s now email code).0 email address guesses known
        (guess-IsLocking s now email address code guesses known h)

  -- In a service whose codes all have attempts left, as after any calls: once as many wrong guesses of
  -- six bytes came in as the code of an address had attempts left, no guess verifies
  -- the address any more, not even the right one, whatever calls come in between, further guesses among
  -- them, as long as none of them sends a new code to the address.
  pub guesses-lock :
      (s : Service) (email address : String) (entry : CodeEntry) (guesses : List (ℕ × String))
      (calls : List Call) (now : ℕ) (again code : String)
      → IsStaged cfg s
      → normalize_email std cfg email ≡ some address
      → lookup address s.codes ≡ some entry
      → All (IsWrong entry) guesses
      → cfg.max_attempts ≤ entry.attempts + length guesses
      → All (IsSpared std cfg address) calls
      → normalize_email std cfg again ≡ some address
      → (verify_code std cfg (after_all std cfg (guess_all s email guesses) calls) now again code).1
        ≡ ok false
  guesses-lock s email address entry guesses calls now again code staged known e wrong enough spared
        still =
      let locked =
        all-IsLocking s email address guesses known
          (held entry e wrong (staged.few address entry e) enough) in
      (verify_code-none (after_all std cfg (guess_all s email guesses) calls) now again address code
        still
        (after_all-HasNoCode std cfg address (guess_all s email guesses) calls locked spared)).0
