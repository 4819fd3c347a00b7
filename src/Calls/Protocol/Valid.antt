-- ===== src/Calls/Protocol/Valid.antt =====
-- internal/calls/protocol.go: what a frame that was accepted carries.
use combox_backend.Prelude.{
  String, Bool, true, false, ◌||◌, ◌==◌, eq_iff, ◌≢◌, ◌⊎◌, ◌&&◌, if◌then◌else◌, if_both, Option,
  none, some, List, [], ◌∷◌, any, All, ◌≡◌, refl, subst, arith, Bool-cases, inl, inr,
}
use combox_backend.Prelude.Text.{trim_space}
use combox_backend.Prelude.Dict.{Dict}
use combox_backend.Calls.Errors.{GoError, Result, ok, ok_injective}
use combox_backend.Calls.Types.{MediaState, kind_valid, role_valid}
use combox_backend.Calls.Protocol.{
  Envelope, is_blank, is_nil, no_tracks, validate_relay, validate_type, validate, validated,
  parse_raw, parse_decoded, parse_envelope, msg_join, msg_leave, msg_decline, msg_offer, msg_answer,
  msg_candidate, msg_relay, msg_media, msg_tracks, msg_ping,
}

-- The types of the frames that name a call.
abbrev pub call_types : List String
call_types =
    msg_leave ∷ msg_decline ∷ msg_offer ∷ msg_answer ∷ msg_candidate ∷ msg_relay ∷ msg_media
    ∷ msg_tracks ∷ []

-- The client's frame types, in the order of the validation.
abbrev pub known_types : List String
known_types =
    msg_join ∷ msg_offer ∷ msg_answer ∷ msg_candidate ∷ msg_leave ∷ msg_decline ∷ msg_ping
    ∷ msg_relay ∷ msg_media ∷ msg_tracks ∷ []

-- What a frame that is passed on to another participant holds.
pub data Relayed (e : Envelope) : Type 0 where
  description :
      ((e.relay_kind == "offer") || (e.relay_kind == "answer")) ≡ true
      → is_blank e.sdp ≡ false
      → Relayed e
  trickled : e.relay_kind ≡ "candidate" → is_blank e.candidate ≡ false → Relayed e

-- What the handlers of the session may rely on.
pub record IsUsable (e : Envelope) : Type 0 where
  pub known : any (◌==◌ e.type) known_types ≡ true
  pub chat : e.type ≡ msg_join → is_blank e.chat_id ≡ false
  pub kind : e.type ≡ msg_join → ((e.kind == "") || kind_valid e.kind) ≡ true
  pub role : e.type ≡ msg_join → ((e.role == "") || role_valid e.role) ≡ true
  pub call : any (◌==◌ e.type) call_types ≡ true → is_blank e.call_id ≡ false
  pub media : e.type ≡ msg_media → (m : MediaState) × (e.media ≡ some m)
  pub target : e.type ≡ msg_relay → is_blank e.target_user_id ≡ false
  pub sdp : ((e.type == msg_offer) || (e.type == msg_answer)) ≡ true → is_blank e.sdp ≡ false
  pub candidate : e.type ≡ msg_candidate → is_blank e.candidate ≡ false
  -- a candidate names its section, by its id or by its number
  pub section : e.type ≡ msg_candidate → (is_blank e.sdp_mid ≡ false) ⊎ (e.sdp_m_line_index ≢ none)
  pub tracks : e.type ≡ msg_tracks → e.tracks ≢ []
  -- a relayed frame is an offer or an answer with its description, or a candidate
  pub relayed : e.type ≡ msg_relay → Relayed e

-- One case of the switch, for one type and for two.
one :
    (b c : Bool) (x y : Option GoError)
    → (y ≡ none → c ≡ true)
    → (if b then x else y) ≡ none
    → (b || c) ≡ true
one true c x y f h = refl
one false c x y f h = f h

two :
    (a b c : Bool) (x y : Option GoError)
    → (y ≡ none → c ≡ true)
    → (if a || b then x else y) ≡ none
    → (a || (b || c)) ≡ true
two true b c x y f h = refl
two false b c x y f h = one b c x y f h

any-cases :
    (t : String) (xs : List String) (G : Type 0)
    → All (λ x. (t == x) ≡ true → G) xs
    → any (◌==◌ t) xs ≡ true
    → G
unfolding any
any-cases t [] G f h = cc
any-cases t (x ∷ xs) G f h = elim (Bool-cases (t == x)) [
  | inl hit ↦ f.0 hit
  | inr miss ↦ any-cases t xs G f.1 (rw miss at h)
]

some_given {ℓ} : {A : Type ℓ} (o : Option A) → is_nil o ≡ false → o ≢ none
unfolding is_nil
some_given none h e = cc
some_given (some a) h e = cc

tracks_given : (m : Dict String) → no_tracks m ≡ false → m ≢ []
unfolding no_tracks
tracks_given [] h e = cc
tracks_given (t ∷ m) h e = cc

module _ (e : Envelope) (accepted : validate e ≡ none) where
  -- The verdict at a type that is known.
  at_type : (t : String) → e.type ≡ t → validate_type t e ≡ none
  unfolding validate
  at_type t h = subst (λ x. validate_type x e ≡ none) h accepted

  join_fields :
      e.type ≡ msg_join
      → (is_blank e.chat_id ≡ false)
        × (((e.kind == "") || kind_valid e.kind) ≡ true)
        × (((e.role == "") || role_valid e.role) ≡ true)
  unfolding validate_type
  join_fields h = let v = at_type msg_join h in (ground arith, ground arith, ground arith)

  media_present : e.type ≡ msg_media → (m : MediaState) × (e.media ≡ some m)
  unfolding validate_type is_nil
  media_present h = let v = at_type msg_media h in ground arith

  target_present : e.type ≡ msg_relay → is_blank e.target_user_id ≡ false
  unfolding validate_type
  target_present h = let v = at_type msg_relay h in ground arith

  sdp_present : ((e.type == msg_offer) || (e.type == msg_answer)) ≡ true → is_blank e.sdp ≡ false
  unfolding validate validate_type
  sdp_present h = elim (Bool-cases (e.type == msg_offer)) [
    | inl offer ↦ let v = at_type msg_offer ((eq_iff e.type msg_offer).0 offer) in ground arith
    | inr other ↦
        let v = at_type msg_answer ((eq_iff e.type msg_answer).0 (rw other at h)) in ground arith
  ]

  candidate_present :
      e.type ≡ msg_candidate
      → (is_blank e.candidate ≡ false) × ((is_blank e.sdp_mid && is_nil e.sdp_m_line_index) ≡ false)
  unfolding validate_type
  candidate_present h = let v = at_type msg_candidate h in (ground arith, ground arith)

  section_named :
      e.type ≡ msg_candidate → (is_blank e.sdp_mid ≡ false) ⊎ (e.sdp_m_line_index ≢ none)
  section_named h = elim (Bool-cases (is_blank e.sdp_mid)) [
    | inl blank ↦ inr (some_given e.sdp_m_line_index (rw blank at (candidate_present h).1))
    | inr named ↦ inl named
  ]

  tracks_present : e.type ≡ msg_tracks → e.tracks ≢ []
  unfolding validate_type
  tracks_present h = let v = at_type msg_tracks h in tracks_given e.tracks (ground arith)

  relay_verdict : e.type ≡ msg_relay → validate_relay e ≡ none
  unfolding validate_type
  relay_verdict h = let v = at_type msg_relay h in ground arith

  relay_present : validate_relay e ≡ none → Relayed e
  unfolding validate_relay
  relay_present v = elim (Bool-cases ((e.relay_kind == "offer") || (e.relay_kind == "answer"))) [
    | inl described ↦ description described (ground arith)
    | inr other ↦ trickled ((eq_iff e.relay_kind "candidate").0 (ground arith)) (ground arith)
  ]

  known_type : any (◌==◌ e.type) known_types ≡ true
  unfolding validate validate_type any
  known_type =
      one (e.type == msg_join) _ _ _
        (two (e.type == msg_offer) (e.type == msg_answer) _ _ _ (
          one (e.type == msg_candidate) _ _ _ (
            two (e.type == msg_leave) (e.type == msg_decline) _ _ _ (
              one (e.type == msg_ping) _ _ _ (
                one (e.type == msg_relay) _ _ _ (
                  one (e.type == msg_media) _ _ _
                    (one (e.type == msg_tracks) _ _ _ (λ unknown. cc))))))))
        accepted

  type_of : (t : String) → (e.type == t) ≡ true → validate_type t e ≡ none
  type_of t h = at_type t ((eq_iff e.type t).0 h)

  call_present : any (◌==◌ e.type) call_types ≡ true → is_blank e.call_id ≡ false
  unfolding validate_type
  call_present = any-cases e.type call_types (is_blank e.call_id ≡ false) (
    (λ h. let v = type_of msg_leave h in ground arith),
    (
      (λ h. let v = type_of msg_decline h in ground arith),
      (
        (λ h. let v = type_of msg_offer h in ground arith),
        (
          (λ h. let v = type_of msg_answer h in ground arith),
          (
            (λ h. let v = type_of msg_candidate h in ground arith),
            (
              (λ h. let v = type_of msg_relay h in ground arith),
              (
                (λ h. let v = type_of msg_media h in ground arith),
                ((λ h. let v = type_of msg_tracks h in ground arith), tt),
              ),
            ),
          ),
        ),
      ),
    ),
  )

  -- A frame that the validation accepts has a known type and carries what its handler reads: a chat
  -- and a valid or absent kind and role to join, a call for every other type but the ping, and the
  -- description, candidate, target, media state or tracks of its type.
  pub validate-IsUsable : IsUsable e
  validate-IsUsable = record {
    known = known_type;
    chat = λ h. (join_fields h).0;
    kind = λ h. (join_fields h).1;
    role = λ h. (join_fields h).2;
    call = call_present;
    media = media_present;
    target = target_present;
    sdp = sdp_present;
    candidate = λ h. (candidate_present h).0;
    section = section_named;
    tracks = tracks_present;
    relayed = λ h. relay_present (relay_verdict h);
  }

validated-ok :
    (env e : Envelope) (verdict : Option GoError)
    → validate env ≡ verdict
    → validated env verdict ≡ ok e
    → validate e ≡ none
unfolding validated
validated-ok env e none v h = subst (λ x. validate x ≡ none) (ok_injective h) v
validated-ok env e (some x) v h = cc

parse_raw-IsUsable : (raw e : Envelope) → parse_raw raw ≡ ok e → IsUsable e
unfolding parse_raw
parse_raw-IsUsable raw e =
    let env : Envelope = record raw { type = trim_space raw.type } in
    if_both {A = Result Envelope} (λ x. x ≡ ok e → IsUsable e) (env.type == "") (λ empty h. cc)
      (λ named h. validate-IsUsable e (validated-ok env e (validate env) refl h))

parse_decoded-IsUsable : (o : Option Envelope) (e : Envelope) → parse_decoded o ≡ ok e → IsUsable e
unfolding parse_decoded
parse_decoded-IsUsable none e h = cc
parse_decoded-IsUsable (some raw) e h = parse_raw-IsUsable raw e h

-- Whatever the JSON decoder returns, a frame that `ParseEnvelope` accepts has one of the ten known
-- types and carries what its handler reads: a chat and a valid or absent kind and role to join; a call
-- for every other type but the ping; a description in an offer or an answer; a candidate with its
-- section; a target, and a description or a candidate, to relay; the media state, or the tracks.
pub parse_envelope-IsUsable :
    (unmarshal : String → Option Envelope) (bytes : String) (e : Envelope)
    → parse_envelope unmarshal bytes ≡ ok e
    → IsUsable e
unfolding parse_envelope
parse_envelope-IsUsable unmarshal bytes e h = parse_decoded-IsUsable (unmarshal bytes) e h
