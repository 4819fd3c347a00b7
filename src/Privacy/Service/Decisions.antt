-- ===== src/Privacy/Service/Decisions.antt =====
-- internal/service/privacy/service.go, `Evaluate` with a memo that the calls of a chain share.
use combox_backend.Prelude.{
  String, Bool, not, ◌||◌, ◌==◌, Option, none, some, List, [], ◌∷◌, ◌≡◌, refl, sym, inl, inr, map,
  All, subst, arith,
}
use combox_backend.Prelude.Text.{trim_space}
use combox_backend.Prelude.Dict.{lookup, lookup-insert-cases}
use combox_backend.Privacy.Types.{Result, ok, err, is_param}
use combox_backend.Privacy.Service.{
  Repository, Memo, new_memo, decide, evaluate, decision_key, keep_decision, known_decision,
  decided, decision_or, evaluate_trimmed,
}
use combox_backend.Privacy.Service.Keys.{IsPlain, join_key-injective}
use combox_backend.Privacy.Service.Memoised.{
  IsTrusted, Agrees, settled, if_both-Agrees, decide-Agrees,
}

-- A question: who looks, at whom, at which parameter.
pub record Query : Type 0 where
  pub viewer : String
  pub target : String
  pub param : String

-- The trimmed ids of a question hold no bar.
abbrev pub IsPlainQuery : Query → Type 0
IsPlainQuery q = IsPlain (trim_space q.viewer) × IsPlain (trim_space q.target)

module _ (r : Repository) where
  -- The questions of a call chain, one after the other, with the memo passed on.
  pub evaluate_each : Option Memo → List Query → List (Result Bool)
  unfolding evaluate
  evaluate_each m [] = []
  evaluate_each m (q ∷ qs) =
      let (m', answer) = evaluate r m q.viewer q.target q.param in answer ∷ evaluate_each m' qs

  -- The answer to one question without a memo.
  abbrev pub evaluate_alone : Query → Result Bool
  evaluate_alone q = (evaluate r none q.viewer q.target q.param).1

  trusted_decision :
      (m : Option Memo) (v t p : String) (b : Bool)
      → IsPlain v
      → IsPlain t
      → IsTrusted r m
      → known_decision m (decision_key v t p) ≡ some b
      → (decide r none v t p).1 ≡ ok b
  unfolding known_decision
  trusted_decision none v t p b plain_v plain_t h k = ground arith
  trusted_decision (some m) v t p b plain_v plain_t h k = h.decisions v t p b plain_v plain_t k

  same_query :
      (v t p w u q : String)
      → IsPlain v
      → IsPlain t
      → IsPlain w
      → IsPlain u
      → decision_key v t p ≡ decision_key w u q
      → (v ≡ w) × (t ≡ u) × (p ≡ q)
  unfolding decision_key
  same_query v t p w u q plain_v plain_t plain_w plain_u e =
      let outer = join_key-injective v w _ _ plain_v plain_w e in
      let inner = join_key-injective t u p q plain_t plain_u outer.1 in (outer.0, inner.0, inner.1)

  keep_decision-IsTrusted :
      (m : Option Memo) (v t p : String) (b : Bool)
      → IsPlain v
      → IsPlain t
      → IsTrusted r m
      → (decide r none v t p).1 ≡ ok b
      → IsTrusted r (keep_decision m (decision_key v t p) b)
  unfolding keep_decision
  keep_decision-IsTrusted none v t p b plain_v plain_t h k = tt
  keep_decision-IsTrusted (some m) v t p b plain_v plain_t h k = record {
    rows = h.rows;
    contacts = h.contacts;
    decisions = λ w u q c plain_w plain_u e. elim (lookup-insert-cases _ _ b c m.decisions e) [
      | inl (same, value) ↦
          let ids = same_query v t p w u q plain_v plain_t plain_w plain_u same in
          rw (sym ids.0, sym ids.1, sym ids.2, sym value) k
      | inr before ↦ h.decisions w u q c plain_w plain_u before
    ];
  }

  decided-Agrees :
      (v t p : String) (out : Option Memo × Result Bool)
      → IsPlain v
      → IsPlain t
      → Agrees r out (decide r none v t p).1
      → Agrees r (decided r (decision_key v t p) out) (decide r none v t p).1
  unfolding decided
  decided-Agrees v t p (m, err e) plain_v plain_t h = h
  decided-Agrees v t p (m, ok b) plain_v plain_t h = record {
    answer = h.answer;
    memo = keep_decision-IsTrusted m v t p b plain_v plain_t h.memo (sym h.answer);
  }

  decided-answer : (key : String) (out : Option Memo × Result Bool) → (decided r key out).1 ≡ out.1
  unfolding decided
  decided-answer key (m, err e) = refl
  decided-answer key (m, ok b) = refl

  decision_or-Agrees :
      (m : Option Memo) (v t p : String) (o : Option Bool)
      → IsPlain v
      → IsPlain t
      → IsTrusted r m
      → known_decision m (decision_key v t p) ≡ o
      → Agrees r (decision_or r m v t p o) (decide r none v t p).1
  unfolding decision_or
  decision_or-Agrees m v t p (some b) plain_v plain_t h e = record {
    answer = sym (trusted_decision m v t p b plain_v plain_t h e);
    memo = h;
  }
  decision_or-Agrees m v t p none plain_v plain_t h e =
      decided-Agrees v t p (decide r m v t p) plain_v plain_t (decide-Agrees r m v t p plain_v h)

  pub due-decision :
      (v t p : String)
      → (decision_or r none v t p (known_decision none (decision_key v t p))).1
        ≡ (decide r none v t p).1
  unfolding decision_or known_decision
  due-decision v t p = decided-answer (decision_key v t p) (decide r none v t p)

  evaluate_trimmed-Agrees :
      (m : Option Memo) (v t p : String)
      → IsPlain v
      → IsPlain t
      → IsTrusted r m
      → Agrees r (evaluate_trimmed r m v t p) (evaluate_trimmed r none v t p).1
  unfolding evaluate_trimmed
  evaluate_trimmed-Agrees m v t p plain_v plain_t h =
      if_both-Agrees r (not (is_param p)) _ _ (settled r m _ h) (
        if_both-Agrees r (v == "" || t == "") _ _ (settled r m _ h) (
          if_both-Agrees r (v == t) _ _ (settled r m _ h) (
            subst (Agrees r _) (sym (due-decision v t p)) (
              decision_or-Agrees m v t p (known_decision m (decision_key v t p)) plain_v plain_t h
                refl))))

  evaluate-Agrees :
      (m : Option Memo) (q : Query)
      → IsPlainQuery q
      → IsTrusted r m
      → Agrees r (evaluate r m q.viewer q.target q.param) (evaluate_alone q)
  unfolding evaluate
  evaluate-Agrees m q plain h =
      evaluate_trimmed-Agrees m (trim_space q.viewer) (trim_space q.target) (trim_space q.param)
        plain.0 plain.1 h

  evaluate_each_trusted :
      (m : Option Memo) (qs : List Query)
      → All IsPlainQuery qs
      → IsTrusted r m
      → evaluate_each m qs ≡ map evaluate_alone qs
  unfolding evaluate_each
  evaluate_each_trusted m [] plain h = refl
  evaluate_each_trusted m (q ∷ qs) plain h =
      let first = evaluate-Agrees m q plain.0 h in
      let rest =
        evaluate_each_trusted (evaluate r m q.viewer q.target q.param).0 qs plain.1 first.memo in
      rw (first.answer, rest) refl

  new_memo-IsTrusted : IsTrusted r (some new_memo)
  unfolding lookup
  new_memo-IsTrusted = record {
    rows = λ u rs e. ground arith;
    contacts = λ v t b p e. ground arith;
    decisions = λ v t p b x y e. ground arith;
  }

  -- In a call chain that starts with a new memo, each question gets the answer, or the error, that
  -- it gets without a memo, if the trimmed ids of the questions hold no bar.
  pub evaluate_each-memo :
      (qs : List Query)
      → All IsPlainQuery qs
      → evaluate_each (some new_memo) qs ≡ map evaluate_alone qs
  evaluate_each-memo qs plain = evaluate_each_trusted (some new_memo) qs plain new_memo-IsTrusted
