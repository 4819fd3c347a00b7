-- ===== src/Prelude/Chosen.antt =====
-- The loops of the services that pick ids, each once: what they have seen, and what they return.
use combox_backend.Prelude.{
  String, false, ◌==◌, List, [], ◌∷◌, ◌++◌, any, any-append, among_ids, NoRepeat, append-NoRepeat,
  All, All-append, ◌≡◌, refl, sym, ◌∙◌, arith,
}
use combox_backend.Prelude.Dict.{Dict, has, insert, has-insert}

pub record Chosen : Type 0 where
  pub seen : Dict (Unit {0})
  pub out : List String

abbrev pub none_chosen : Chosen
none_chosen = record { seen = []; out = [] }

-- `seen[id] = struct{}{}` and `out = append(out, id)`
unfoldable pub with_choice : Chosen → String → Chosen
unfolding insert
with_choice c id = record { seen = insert id tt c.seen; out = c.out ++ id ∷ [] }

-- What a loop has chosen: ids of a kind, each once, and it tracks them.
pub record IsChosen (P : String → Type 0) (c : Chosen) : Type 0 where
  pub tracked : (x : String) → has x c.seen ≡ among_ids x c.out
  pub once : NoRepeat c.out
  pub kind : All P c.out

pub none_chosen-IsChosen : (P : String → Type 0) → IsChosen P none_chosen
unfolding any has
none_chosen-IsChosen P = record { tracked = λ x. refl; once = tt; kind = tt }

pub with_choice-tracked :
    (c : Chosen) (id x : String)
    → has x c.seen ≡ among_ids x c.out
    → has x (with_choice c id).seen ≡ among_ids x (with_choice c id).out
unfolding with_choice any
with_choice-tracked c id x h =
    ground (arith, has-insert id x tt c.seen, any-append (λ y. y == x) c.out (id ∷ []), h)

pub with_choice-IsChosen :
    (P : String → Type 0) (c : Chosen) (id : String)
    → IsChosen P c
    → has id c.seen ≡ false
    → P id
    → IsChosen P (with_choice c id)
unfolding with_choice
with_choice-IsChosen P c id h new p = record {
  tracked = λ x. with_choice-tracked c id x (h.tracked x);
  once = append-NoRepeat c.out id h.once (sym (h.tracked id) ∙ new);
  kind = All-append P c.out (id ∷ []) h.kind (p, tt);
}
