-- ===== src/Calls/Session/Gate.antt =====
-- internal/calls/session.go: the gate of a join.
use combox_backend.Prelude.{
  ℕ, zero, suc, ◌+◌, ◌-◌, ◌≤◌, ◌<◌, true, false, Option, none, List, [], ◌∷◌, ◌++◌, length,
  length-append, ◌≡◌, refl, sym, ap, ◌∙◌, arith,
}
use mathlib.Core.List.{append_assoc, append-nil}
use combox_backend.Calls.Errors.{GoError}
use combox_backend.Calls.Protocol.{Envelope}
use combox_backend.Calls.Session.{
  Session, max_queued_frames, begin_gate, enqueue, write_frame, send, stop_on, flush, end_gate,
  send_each,
}

-- The first `n` elements.
unfoldable pub take_first {ℓ} : {A : Type ℓ} → ℕ → List A → List A
take_first zero xs = []
take_first (suc n) [] = []
take_first (suc n) (x ∷ xs) = x ∷ take_first n xs

take_first-none {ℓ} : {A : Type ℓ} (n : ℕ) → take_first {A = A} n [] ≡ []
unfolding take_first
take_first-none zero = refl
take_first-none (suc n) = refl

length-take_first {ℓ} : {A : Type ℓ} (n : ℕ) (xs : List A) → length (take_first n xs) ≤ n
unfolding take_first
length-take_first zero xs = omega arith
length-take_first (suc n) [] = omega arith
length-take_first (suc n) (x ∷ xs) = omega (arith, length-take_first n xs)

take_first-append {ℓ} :
    {A : Type ℓ} (n left : ℕ) (xs ys : List A)
    → length (take_first n xs) + left ≡ n
    → take_first n xs ++ take_first left ys ≡ take_first n (xs ++ ys)
unfolding take_first
take_first-append zero left xs ys e =
    ap (λ (k : ℕ). take_first k ys) (let z : left ≡ 0 = omega arith in z)
take_first-append (suc n) left [] ys e =
    ap (λ (k : ℕ). take_first k ys) (let z : left ≡ suc n = omega arith in z)
take_first-append (suc n) left (x ∷ xs) ys e =
    ap (◌∷◌ x) (take_first-append n left xs ys (omega arith))

module _ (transport : Envelope → Option GoError) where
  send-gated_room :
      (s : Session) (env : Envelope)
      → s.gated ≡ true
      → length s.queued < max_queued_frames
      → (send transport s env).0 ≡ record s { queued = s.queued ++ env ∷ [] }
  unfolding send enqueue
  send-gated_room s env g room = ground arith

  send-gated_full :
      (s : Session) (env : Envelope)
      → s.gated ≡ true
      → length s.queued ≡ max_queued_frames
      → (send transport s env).0 ≡ s
  unfolding send enqueue
  send-gated_full s env g full = ground arith

  -- While the gate is up the queue takes frames up to its limit, and nothing else changes.
  send_each-gated :
      (s : Session) (envs : List Envelope) (left : ℕ)
      → s.gated ≡ true
      → length s.queued + left ≡ max_queued_frames
      → send_each transport s envs ≡ record s { queued = s.queued ++ take_first left envs }
  unfolding send_each take_first
  send_each-gated s [] left g fits = λ i. record s {
    queued = sym (ap (◌++◌ s.queued) (take_first-none left) ∙ append-nil s.queued) i;
  }
  send_each-gated s (env ∷ envs) zero g fits =
      rw (send-gated_full s env g (omega arith)) (send_each-gated s envs zero g fits)
  send_each-gated s (env ∷ envs) (suc left) g fits =
      ap (λ (t : Session). send_each transport t envs) (send-gated_room s env g (omega arith))
      ∙ send_each-gated (record s { queued = s.queued ++ env ∷ [] }) envs left g
          (omega (arith, length-append s.queued (env ∷ [])))
      ∙ (λ i. record s { queued = append_assoc s.queued (env ∷ []) (take_first left envs) i })

  write_works :
      (s : Session) (env : Envelope)
      → s.closed ≡ false
      → transport env ≡ none
      → write_frame transport s env ≡ (record s { wire = s.wire ++ env ∷ [] }, none)
  unfolding write_frame
  write_works s env live works = simp (live, works)

  -- Where nothing fails, the queue goes out in its order.
  flush_all :
      (s : Session) (envs : List Envelope)
      → s.closed ≡ false
      → ((e : Envelope) → transport e ≡ none)
      → (flush transport s envs).0 ≡ record s { wire = s.wire ++ envs }
  unfolding flush stop_on
  flush_all s [] live works = λ i. record s { wire = sym (append-nil s.wire) i }
  flush_all s (env ∷ envs) live works =
      let e = write_works s env live (works env) in
      (λ i. (stop_on (e i) (flush transport (e i).0 envs)).0)
      ∙ flush_all (record s { wire = s.wire ++ env ∷ [] }) envs live works
      ∙ (λ i. record s { wire = append_assoc s.wire (env ∷ []) envs i })

  -- Behind a fresh gate frames wait: none of them is on the wire, and the queue is never longer
  -- than its limit.
  pub begin_gate-holds :
      (s : Session) (envs : List Envelope)
      → send_each transport (begin_gate s) envs
        ≡ record s { gated = true; queued = take_first max_queued_frames envs }
  unfolding begin_gate
  begin_gate-holds s envs = send_each-gated (begin_gate s) envs max_queued_frames refl refl

  -- A join on a connection that works: whatever frames the rest of the process sends between the
  -- start of the join and the end of its gate, `call.joined` is the first frame of the join on the
  -- wire. The frames that fit the queue follow in their order.
  pub join_order :
      (s : Session) (before after : List Envelope) (joined : Envelope)
      → s.closed ≡ false
      → ((e : Envelope) → transport e ≡ none)
      → let gated = send_each transport (begin_gate s) before in
        let told = (write_frame transport gated joined).0 in
        (end_gate transport (send_each transport told after)).0.wire
        ≡ s.wire ++ joined ∷ take_first max_queued_frames (before ++ after)
  unfolding end_gate
  join_order s before after joined live works =
      let kept = take_first max_queued_frames before in
      let left = max_queued_frames - length kept in
      let fits : length kept + left ≡ max_queued_frames =
        omega (arith, length-take_first max_queued_frames before) in
      let waiting : Session = record s { gated = true; queued = kept } in
      let told : Session = record waiting { wire = s.wire ++ joined ∷ [] } in
      let full : Session = record told { queued = kept ++ take_first left after } in
      let write =
        ap (λ (t : Session). (write_frame transport t joined).0) (begin_gate-holds s before)
        ∙ ap (λ (x : Session × Option GoError). x.0)
            (write_works waiting joined live (works joined)) in
      let gone =
        ap (λ (t : Session). send_each transport t after) write
        ∙ send_each-gated told after left refl fits in
      ap (λ (t : Session). (end_gate transport t).0.wire) gone
      ∙ ap (λ (t : Session). t.wire)
          (flush_all (record full { gated = false; queued = [] }) full.queued live works)
      ∙ append_assoc s.wire (joined ∷ []) full.queued
      ∙ ap (λ (xs : List Envelope). s.wire ++ joined ∷ xs)
          (take_first-append max_queued_frames left before after fits)
