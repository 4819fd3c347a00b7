-- ===== src/Privacy/Service/Memoised.antt =====
-- internal/service/privacy/service.go: the memo of a call chain changes no answer. The specification
-- of a memoised function is the same function without a memo.
use combox_backend.Prelude.{
  List, [], inl, inr, subst, String, Bool, true, false, ◌==◌, if◌then◌else◌, Option, none, some,
  ◌≡◌, refl, sym, arith, eq_iff,
}
use combox_backend.Prelude.Dict.{Dict, lookup, lookup-insert, lookup-insert-cases}
use combox_backend.Privacy.Types.{Row, Result, ok, err, rule_everybody, rule_nobody, rule_contacts}
use combox_backend.Privacy.Service.{
  Answer, got, failed, Repository, Memo, load_rows, are_contacts, evaluate_rule, decide,
  contact_key, decision_key, fetched, rows_or_fetch, asked, contact_or_ask, index, keep_rows,
  keep_contact, known_rows, known_contact, by_rows, contains_id, row_for,
}
use combox_backend.Privacy.Service.Keys.{IsPlain, join_key-injective}

module _ (r : Repository) where
  -- What a memo holds is what the functions answer without it, for ids without a bar.
  pub record IsFaithful (m : Memo) : Type 0 where
    pub rows :
        (u : String) (rs : Dict Row) → lookup u m.rows ≡ some rs → (load_rows r none u).1 ≡ ok rs
    pub contacts :
        (v t : String) (b : Bool)
        → IsPlain v
        → lookup (contact_key v t) m.contacts ≡ some b
        → (are_contacts r none v t).1 ≡ ok b
    pub decisions :
        (v t p : String) (b : Bool)
        → IsPlain v
        → IsPlain t
        → lookup (decision_key v t p) m.decisions ≡ some b
        → (decide r none v t p).1 ≡ ok b

  abbrev pub IsTrusted : Option Memo → Type 0
  IsTrusted none = Unit {0}
  IsTrusted (some m) = IsFaithful m

  -- An answer with the memo after it, against the answer that is due.
  pub record Agrees {ℓ} {A : Type ℓ} (out : Option Memo × Result A) (due : Result A) : Type ℓ where
    pub answer : out.1 ≡ due
    pub memo : IsTrusted out.0

  trusted_rows :
      (m : Option Memo) (u : String) (rs : Dict Row)
      → IsTrusted m
      → known_rows m u ≡ some rs
      → (load_rows r none u).1 ≡ ok rs
  unfolding known_rows
  trusted_rows none u rs h k = ground arith
  trusted_rows (some m) u rs h k = h.rows u rs k

  keep_rows-IsTrusted :
      (m : Option Memo) (u : String) (rs : Dict Row)
      → IsTrusted m
      → (load_rows r none u).1 ≡ ok rs
      → IsTrusted (keep_rows m u rs)
  unfolding keep_rows
  keep_rows-IsTrusted none u rs h k = tt
  keep_rows-IsTrusted (some m) u rs h k = record {
    rows = λ w ws e. ground (arith, lookup-insert u w rs m.rows, eq_iff u w, h.rows w ws);
    contacts = h.contacts;
    decisions = h.decisions;
  }

  fetched-Agrees :
      (m : Option Memo) (u : String) (a : Answer (List Row))
      → IsTrusted m
      → r.get_all u ≡ a
      → Agrees (fetched r m u a) (load_rows r none u).1
  unfolding fetched load_rows rows_or_fetch known_rows
  fetched-Agrees m u (failed text) h e = record { answer = rw e refl; memo = h }
  fetched-Agrees m u (got raw) h e = record {
    answer = rw e refl;
    memo = keep_rows-IsTrusted m u (index [] raw) h (rw e refl);
  }

  rows_or_fetch-Agrees :
      (m : Option Memo) (u : String) (o : Option (Dict Row))
      → IsTrusted m
      → known_rows m u ≡ o
      → Agrees (rows_or_fetch r m u o) (load_rows r none u).1
  unfolding rows_or_fetch
  rows_or_fetch-Agrees m u (some rs) h e = record {
    answer = sym (trusted_rows m u rs h e);
    memo = h;
  }
  rows_or_fetch-Agrees m u none h e = fetched-Agrees m u (r.get_all u) h refl

  load_rows-Agrees :
      (m : Option Memo) (u : String) → IsTrusted m → Agrees (load_rows r m u) (load_rows r none u).1
  unfolding load_rows
  load_rows-Agrees m u h = rows_or_fetch-Agrees m u (known_rows m u) h refl

  trusted_contact :
      (m : Option Memo) (v t : String) (b : Bool)
      → IsPlain v
      → IsTrusted m
      → known_contact m (contact_key v t) ≡ some b
      → (are_contacts r none v t).1 ≡ ok b
  unfolding known_contact
  trusted_contact none v t b p h k = ground arith
  trusted_contact (some m) v t b p h k = h.contacts v t b p k

  keep_contact-IsTrusted :
      (m : Option Memo) (v t : String) (b : Bool)
      → IsPlain v
      → IsTrusted m
      → (are_contacts r none v t).1 ≡ ok b
      → IsTrusted (keep_contact m (contact_key v t) b)
  unfolding keep_contact contact_key
  keep_contact-IsTrusted none v t b p h k = tt
  keep_contact-IsTrusted (some m) v t b p h k = record {
    rows = h.rows;
    contacts = λ w u c q e. elim (lookup-insert-cases _ _ b c m.contacts e) [
      | inl (same, value) ↦
          let ids = join_key-injective v w t u p q same in rw (sym ids.0, sym ids.1, sym value) k
      | inr before ↦ h.contacts w u c q before
    ];
    decisions = h.decisions;
  }

  asked-Agrees :
      (m : Option Memo) (v t : String) (a : Answer Bool)
      → IsPlain v
      → IsTrusted m
      → r.are_direct_contacts v t ≡ a
      → Agrees (asked r m (contact_key v t) a) (are_contacts r none v t).1
  unfolding asked are_contacts contact_or_ask known_contact
  asked-Agrees m v t (failed text) p h e = record { answer = rw e refl; memo = h }
  asked-Agrees m v t (got b) p h e = record {
    answer = rw e refl;
    memo = keep_contact-IsTrusted m v t b p h (rw e refl);
  }

  contact_or_ask-Agrees :
      (m : Option Memo) (v t : String) (o : Option Bool)
      → IsPlain v
      → IsTrusted m
      → known_contact m (contact_key v t) ≡ o
      → Agrees (contact_or_ask r m v t o) (are_contacts r none v t).1
  unfolding contact_or_ask
  contact_or_ask-Agrees m v t (some b) p h e = record {
    answer = sym (trusted_contact m v t b p h e);
    memo = h;
  }
  contact_or_ask-Agrees m v t none p h e = asked-Agrees m v t (r.are_direct_contacts v t) p h refl

  are_contacts-Agrees :
      (m : Option Memo) (v t : String)
      → IsPlain v
      → IsTrusted m
      → Agrees (are_contacts r m v t) (are_contacts r none v t).1
  unfolding are_contacts
  are_contacts-Agrees m v t p h =
      contact_or_ask-Agrees m v t (known_contact m (contact_key v t)) p h refl

  pub settled {ℓ} : {A : Type ℓ} (m : Option Memo) (a : Result A) → IsTrusted m → Agrees (m, a) a
  settled m a h = record { answer = refl; memo = h }

  -- Two computations that take the same branch.
  pub if_both-Agrees {ℓ} :
      {A : Type ℓ} (b : Bool) {x y : Option Memo × Result A} (due_x due_y : Option Memo × Result A)
      → Agrees x due_x.1
      → Agrees y due_y.1
      → Agrees (if b then x else y) (if b then due_x else due_y).1
  if_both-Agrees true _ _ h k = h
  if_both-Agrees false _ _ h k = k

  evaluate_rule-Agrees :
      (m : Option Memo) (v t : String) (row : Row)
      → IsPlain v
      → IsTrusted m
      → Agrees (evaluate_rule r m v t row) (evaluate_rule r none v t row).1
  unfolding evaluate_rule
  evaluate_rule-Agrees m v t row p h =
      if_both-Agrees (contains_id row.deny_ids v) _ _ (settled m (ok false) h) (
        if_both-Agrees (row.rule == rule_everybody) _ _ (settled m (ok true) h) (
          if_both-Agrees (row.rule == rule_nobody) _ _
            (settled m (ok (contains_id row.allow_ids v)) h)
            (if_both-Agrees (row.rule == rule_contacts) _ _
              (if_both-Agrees (contains_id row.allow_ids v) _ _ (settled m (ok true) h)
                (are_contacts-Agrees m v t p h))
              (settled m (ok false) h))))

  fetched-none :
      (u : String) (a : Answer (List Row)) → fetched r none u a ≡ (none, (fetched r none u a).1)
  unfolding fetched keep_rows
  fetched-none u (failed text) = refl
  fetched-none u (got raw) = refl

  pub load_rows-none : (u : String) → load_rows r none u ≡ (none, (load_rows r none u).1)
  unfolding load_rows rows_or_fetch known_rows
  load_rows-none u = fetched-none u (r.get_all u)

  -- The decision from the rows that were read without a memo.
  abbrev due_by : String → String → String → Result (Dict Row) → Result Bool
  due_by v t p rows = (by_rows r v t p (none, rows)).1

  by_rows-Agrees :
      (v t p : String) (m : Option Memo) (rows : Result (Dict Row))
      → IsPlain v
      → IsTrusted m
      → Agrees (by_rows r v t p (m, rows)) (due_by v t p rows)
  unfolding by_rows
  by_rows-Agrees v t p m (err e) plain h = record { answer = refl; memo = h }
  by_rows-Agrees v t p m (ok rows) plain h = evaluate_rule-Agrees m v t (row_for rows p) plain h

  by_read-Agrees :
      (v t p : String) (out : Option Memo × Result (Dict Row)) (rows : Result (Dict Row))
      → IsPlain v
      → Agrees out rows
      → Agrees (by_rows r v t p out) (due_by v t p rows)
  by_read-Agrees v t p (m, read) rows plain h =
      subst (λ x. Agrees (by_rows r v t p (m, read)) (due_by v t p x)) h.answer
        (by_rows-Agrees v t p m read plain h.memo)

  pub decide-Agrees :
      (m : Option Memo) (v t p : String)
      → IsPlain v
      → IsTrusted m
      → Agrees (decide r m v t p) (decide r none v t p).1
  unfolding decide
  decide-Agrees m v t p plain h =
      rw (load_rows-none t) (
        by_read-Agrees v t p (load_rows r m t) (load_rows r none t).1 plain
          (load_rows-Agrees m t h))
