-- ===== src/Chat/Events/Payload.antt =====
-- internal/service/chat/service_chat_events.go: what `chatEventPayload` leaves of a payload.
use Prim.Native.Char.{code}
use combox_backend.Prelude.{
  ℕ, ◌+◌, ◌≤◌, zero, suc, String, Bool, true, not, ◌&&◌, ◌||◌, eqb, ltb, if_both, Bool-cases, List,
  [], ◌∷◌, All, ◌≡◌, refl, inl, inr, arith,
}
use combox_backend.Prelude.Text.{is_space, append_text, rune_length, take_runes}
use combox_backend.Chat.Events.{
  cons_word, words_from, fields, join_words, cut_at, chat_event_payload, chat_event_payload_limit,
}

-- No white space but blanks: neither a line break nor a tab.
pub on_a_line : String → Bool
on_a_line String.[] = true
on_a_line (String.◌∷◌ c s) = let rest = on_a_line s in (not (is_space c) || eqb (code c) 32) && rest

abbrev OnLine : String → Type 0
OnLine s = on_a_line s ≡ true

append-OnLine : (s t : String) → OnLine s → OnLine t → OnLine (append_text s t)
unfolding on_a_line append_text
append-OnLine String.[] t h k = k
append-OnLine (String.◌∷◌ c s) t h k = ground (arith, append-OnLine s t (ground arith) k)

take-OnLine : (n : ℕ) (s : String) → OnLine s → OnLine (take_runes n s)
unfolding on_a_line take_runes
take-OnLine zero s h = refl
take-OnLine (suc n) String.[] h = refl
take-OnLine (suc n) (String.◌∷◌ c s) h = ground (arith, take-OnLine n s (ground arith))

rune_length-append : (s t : String) → rune_length (append_text s t) ≡ rune_length s + rune_length t
unfolding rune_length append_text
rune_length-append String.[] t = omega arith
rune_length-append (String.◌∷◌ c s) t = ground (arith, rune_length-append s t)

rune_length-take : (n : ℕ) (s : String) → rune_length (take_runes n s) ≤ n
unfolding rune_length take_runes
rune_length-take zero s = omega arith
rune_length-take (suc n) String.[] = omega arith
rune_length-take (suc n) (String.◌∷◌ c s) = ground (arith, rune_length-take n s)

cons_word-OnLine :
    (w : String) (ws : List String) → OnLine w → All OnLine ws → All OnLine (cons_word w ws)
unfolding cons_word
cons_word-OnLine String.[] ws h k = k
cons_word-OnLine (String.◌∷◌ c w) ws h k = (h, k)

words_from-OnLine : (s : String) → OnLine (words_from s).0 × All OnLine (words_from s).1
unfolding words_from on_a_line
words_from-OnLine String.[] = (refl, tt)
words_from-OnLine (String.◌∷◌ c s) =
    let h = words_from-OnLine s in
    elim (Bool-cases (is_space c)) [
      | inl space ↦ rw space (refl, cons_word-OnLine (words_from s).0 (words_from s).1 h.0 h.1)
      | inr letter ↦ rw letter (ground (arith, h.0, letter), h.1)
    ]

blank_line : OnLine " "
unfolding on_a_line is_space
blank_line = refl

ellipsis_line : OnLine "…"
unfolding on_a_line is_space
ellipsis_line = refl

join_words-OnLine : (ws : List String) → All OnLine ws → OnLine (join_words ws)
unfolding join_words on_a_line
join_words-OnLine [] h = refl
join_words-OnLine (w ∷ []) h = h.0
join_words-OnLine (w ∷ v ∷ ws) h =
    append-OnLine w _ h.0 (append-OnLine " " _ blank_line (join_words-OnLine (v ∷ ws) h.1))

cut_at-OnLine : (n : ℕ) (s : String) → OnLine s → OnLine (cut_at n s)
unfolding cut_at
cut_at-OnLine n s h =
    if_both OnLine (ltb n (rune_length s))
      (λ long. append-OnLine (take_runes n s) "…" (take-OnLine n s h) ellipsis_line) (λ short. h)

one_rune : rune_length "…" ≡ 1
unfolding rune_length
one_rune = refl

cut_at-length : (n : ℕ) (s : String) → rune_length (cut_at n s) ≤ n + 1
unfolding cut_at
cut_at-length n s =
    if_both (λ t. rune_length t ≤ n + 1) (ltb n (rune_length s))
      (λ long.
        ground (arith, rune_length-append (take_runes n s) "…", rune_length-take n s, one_rune))
      (λ short. ground arith)

-- What the journal keeps of a payload is one line, without tabs, of 161 characters at most, the mark of
-- the cut included.
pub chat_event_payload_bounds :
    (payload : String)
    → (on_a_line (chat_event_payload payload) ≡ true)
      × (rune_length (chat_event_payload payload) ≤ 161)
unfolding chat_event_payload fields
chat_event_payload_bounds payload =
    let h = words_from-OnLine payload in
    let text = join_words (fields payload) in
    (
      cut_at-OnLine chat_event_payload_limit text (
          join_words-OnLine (fields payload)
            (cons_word-OnLine (words_from payload).0 (words_from payload).1 h.0 h.1)),
      cut_at-length chat_event_payload_limit text,
    )
