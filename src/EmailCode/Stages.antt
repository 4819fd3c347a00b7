-- ===== src/EmailCode/Stages.antt =====
-- internal/service/emailcode/service.go: an address stands in one of the three maps at most, and a
-- code that is kept has guesses left.
pub mod Codes
pub mod Keys
use combox_backend.Prelude.{
  ℕ, ◌+◌, ◌≤◌, ◌<◌, suc, String, Bool, true, false, not, ◌&&◌, ◌||◌, ◌==◌, eq_iff, bit, eqb, leb,
  ltb, if◌then◌else◌, if_both, Option, none, some, List, [], ◌∷◌, ◌≡◌, refl, ap, sym, ◌∙◌, arith,
  inl, inr, subst,
}
use combox_backend.Prelude.Text.{trim_space}
use combox_backend.Prelude.Dict.{
  Dict, lookup, has, insert, erase, has-insert, lookup-insert-cases, lookup-erase, has-lookup-some,
}
use combox_backend.EmailCode.{
  Std, CodeEntry, Config, Service, Result, ok, err, new_service, prune, prune_verified,
  prune_login_keys, on_email, normalize_email, store_code, send_to, send_code, missed, verify_entry,
  verify_trimmed, verify_code, consume_entry, consume_verified, delivery, bot_answer, code_hash,
  byte_length,
}

pub has-erased {ℓ} :
    {V : Type ℓ} (k j : String) (m : Dict V) → has j (erase k m) ≡ (not (k == j) && has j m)
unfolding has erase
has-erased k j [] = ground arith
has-erased k j ((i, w) ∷ m) = ground (arith, has-erased k j m, eq_iff i k, eq_iff i j, eq_iff k j)

has-prune-le {ℓ} :
    {V : Type ℓ} (expiry : V → ℕ) (now : ℕ) (j : String) (m : Dict V)
    → bit (has j (prune expiry now m)) ≤ bit (has j m)
unfolding has prune
has-prune-le expiry now j [] = omega arith
has-prune-le expiry now j ((i, w) ∷ m) = ground (arith, has-prune-le expiry now j m)

has-erase-le {ℓ} :
    {V : Type ℓ} (k j : String) (m : Dict V) → bit (has j (erase k m)) ≤ bit (has j m)
has-erase-le k j m = ground (arith, has-erased k j m)

-- In how many of the three maps an address stands.
abbrev pub places : String → Service → ℕ
places email s = bit (has email s.codes) + bit (has email s.verified) + bit (has email s.login_key)

module _ (cfg : Config) where
  pub record IsStaged (s : Service) : Type 0 where
    pub few :
        (email : String) (entry : CodeEntry)
        → lookup email s.codes ≡ some entry
        → entry.attempts < cfg.max_attempts
    pub one : (email : String) → places email s ≤ 1

  -- Nothing but entries that go.
  pub record Shrinks (s t : Service) : Type 0 where
    pub code_kept :
        (email : String) (entry : CodeEntry)
        → lookup email t.codes ≡ some entry
        → lookup email s.codes ≡ some entry
    pub codes_le : (email : String) → bit (has email t.codes) ≤ bit (has email s.codes)
    pub verified_le : (email : String) → bit (has email t.verified) ≤ bit (has email s.verified)
    pub login_key_le : (email : String) → bit (has email t.login_key) ≤ bit (has email s.login_key)

  pub shrunk-IsStaged : (s t : Service) → IsStaged s → Shrinks s t → IsStaged t
  shrunk-IsStaged s t h k = record {
    few = λ email entry e. h.few email entry (k.code_kept email entry e);
    one = λ email.
        omega (arith, h.one email, k.codes_le email, k.verified_le email, k.login_key_le email);
  }

  pub new_service-IsStaged : IsStaged new_service
  unfolding lookup has
  new_service-IsStaged = record { few = λ email entry e. ground arith; one = λ email. omega arith }

  pub prune_verified-IsStaged :
      (now : ℕ) (s : Service) → IsStaged s → IsStaged (prune_verified now s)
  prune_verified-IsStaged now s h = shrunk-IsStaged s _ h (record {
    code_kept = λ email entry e. e;
    codes_le = λ email. omega arith;
    verified_le = λ email. has-prune-le _ now email s.verified;
    login_key_le = λ email. omega arith;
  })

  pub prune_login_keys-IsStaged :
      (now : ℕ) (s : Service) → IsStaged s → IsStaged (prune_login_keys now s)
  prune_login_keys-IsStaged now s h = shrunk-IsStaged s _ h (record {
    code_kept = λ email entry e. e;
    codes_le = λ email. omega arith;
    verified_le = λ email. omega arith;
    login_key_le = λ email. has-prune-le _ now email s.login_key;
  })

  pub drop_code-IsStaged :
      (email : String) (s : Service)
      → IsStaged s
      → IsStaged (record s { codes = erase email s.codes })
  drop_code-IsStaged email s h = shrunk-IsStaged s _ h (record {
    code_kept = λ other entry e. ground (arith, lookup-erase email other s.codes);
    codes_le = λ other. has-erase-le email other s.codes;
    verified_le = λ other. omega arith;
    login_key_le = λ other. omega arith;
  })

  pub drop_verified-IsStaged :
      (email : String) (s : Service)
      → IsStaged s
      → IsStaged (record s { verified = erase email s.verified })
  drop_verified-IsStaged email s h = shrunk-IsStaged s _ h (record {
    code_kept = λ other entry e. e;
    codes_le = λ other. omega arith;
    verified_le = λ other. has-erase-le email other s.verified;
    login_key_le = λ other. omega arith;
  })

  pub drop_key-IsStaged :
      (email : String) (s : Service)
      → IsStaged s
      → IsStaged (record s { login_key = erase email s.login_key })
  drop_key-IsStaged email s h = shrunk-IsStaged s _ h (record {
    code_kept = λ other entry e. e;
    codes_le = λ other. omega arith;
    verified_le = λ other. omega arith;
    login_key_le = λ other. has-erase-le email other s.login_key;
  })

  -- An address that is in no map may enter one.
  pub insert_code-IsStaged :
      (email : String) (entry : CodeEntry) (s : Service)
      → IsStaged s
      → has email s.verified ≡ false
      → has email s.login_key ≡ false
      → entry.attempts < cfg.max_attempts
      → IsStaged (record s { codes = insert email entry s.codes })
  insert_code-IsStaged email entry s h free_v free_k few = record {
    few = λ other found e. elim (lookup-insert-cases email other entry found s.codes e) [
      | inl (same, value) ↦ subst (λ x. x.attempts < cfg.max_attempts) value few
      | inr before ↦ h.few other found before
    ];
    one = λ other.
        ground (arith, has-insert email other entry s.codes, h.one other, eq_iff email other);
  }
