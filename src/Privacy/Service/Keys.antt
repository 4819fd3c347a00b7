-- ===== src/Privacy/Service/Keys.antt =====
-- internal/service/privacy/service.go: the keys of the memo tell apart the ids that they join, if
-- these contain no bar.
use Prim.Native.Char.{Char, code}
use combox_backend.Prelude.{ℕ, String, false, eqb, ◌≡◌, ◌∙◌, sym, refl, ap, arith}
use combox_backend.Privacy.Service.{join_key}

-- No bar in an id: so are the UUIDs of the users.
abbrev pub IsPlain : String → Type 0
IsPlain String.[] = Unit {0}
IsPlain (String.◌∷◌ c s) = (eqb (code c) b'|' ≡ false) × IsPlain s

-- The first character, which is a bar where there is none.
head_code : String → ℕ
head_code String.[] = b'|'
head_code (String.◌∷◌ c s) = code c

bar_not_plain : (c : Char) → code c ≡ b'|' → eqb (code c) b'|' ≡ false → ⊥
bar_not_plain c e p = ground arith

pub join_key-injective :
    (a b x y : String) → IsPlain a → IsPlain b → join_key a x ≡ join_key b y → (a ≡ b) × (x ≡ y)
unfolding join_key head_code
join_key-injective String.[] String.[] x y p q e = (refl, cc)
join_key-injective String.[] (String.◌∷◌ d b) x y p q e =
    absurd (bar_not_plain d (sym (ap head_code e)) q.0)
join_key-injective (String.◌∷◌ c a) String.[] x y p q e =
    absurd (bar_not_plain c (ap head_code e) p.0)
join_key-injective (String.◌∷◌ c a) (String.◌∷◌ d b) x y p q e =
    let tails : join_key a x ≡ join_key b y = cc in
    let heads : c ≡ d = cc in
    let rest = join_key-injective a b x y p.1 q.1 tails in
    (ap (λ k. String.◌∷◌ k a) heads ∙ ap (String.◌∷◌ d) rest.0, rest.1)
