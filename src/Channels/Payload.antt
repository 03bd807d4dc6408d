-- ===== src/Channels/Payload.antt =====
-- When a draft gives a payload, and which.
use logdeck.Base.{
  Bool, true, false, ◌&&◌, ◌≡◌, refl, Option, none, some, [], ◌∷◌, any, Bool-cases, Option-cases,
  inl, inr, arith, if◌then◌else◌,
}
use logdeck.Base.Text.{Text, codes, text_eq, truthy, trim}
use logdeck.Channels.{
  AlertChannelType, webhook, ntfy, gotify, telegram, AlertChannelPayload, ChannelDraft,
  ChannelResult, error, payload, if_truthy, is_http_url, by_type, build_channel_payload,
}

-- What a type of channel needs and sends.
abbrev pub needs_url : AlertChannelType → Bool
needs_url telegram = false
needs_url _ = true

abbrev pub needs_token : AlertChannelType → Bool
needs_token gotify = true
needs_token telegram = true
needs_token _ = false

abbrev pub needs_target : AlertChannelType → Bool
needs_target telegram = true
needs_target _ = false

-- `given` where it is needed.
abbrev pub if_needed : Bool → Bool → Bool
if_needed needed given = if needed then given else true

abbrev pub sent : Bool → Text → Option Text
sent needed s = if needed then some s else none

-- What the parser gives for a URL of the web.
abbrev pub is_web : Option Text → Bool
is_web none = false
is_web (some protocol) = any (text_eq protocol) (codes "http:" ∷ codes "https:" ∷ [])

module _ (protocol_of : Text → Option Text) where
  is_http_url_lem : (url : Text) → is_http_url protocol_of url ≡ is_web (protocol_of url)
  unfolding is_http_url
  is_http_url_lem url = elim (Option-cases (protocol_of url)) [
    | inl e ↦ rw (e, is_http_url) refl
    | inr (protocol, e) ↦ rw (e, is_http_url) (ground arith)
  ]

  abbrev pub is_complete : ChannelDraft → Bool
  is_complete draft =
      let t = draft.channel_type in
      if_needed (needs_url t) (truthy (trim draft.url) && is_web (protocol_of (trim draft.url)))
      && if_needed (needs_token t) (truthy (trim draft.token))
      && if_needed (needs_target t) (truthy (trim draft.target))

  abbrev pub payload_of : ChannelDraft → AlertChannelPayload
  payload_of draft =
      let t = draft.channel_type in
      record {
        channel_type = t;
        name = if_truthy (trim draft.name);
        enabled = true;
        url = sent (needs_url t) (trim draft.url);
        token = sent (needs_token t) (trim draft.token);
        target = sent (needs_target t) (trim draft.target);
      }

  -- The payload, or some error.
  abbrev pub Answers : Bool → AlertChannelPayload → ChannelResult → Type 0
  Answers true p r = r ≡ payload p
  Answers false p r = (message : Text) × (r ≡ error message)

  answers :
      (t : AlertChannelType) (name url token target : Text)
      → let d : ChannelDraft = record {
        channel_type = t;
        name = name;
        url = url;
        token = token;
        target = target;
      } in
        Answers (is_complete d) (payload_of d) (by_type protocol_of t d)
  unfolding by_type
  answers webhook name url token target = elim (Bool-cases (truthy (trim url))) [
    | inr a ↦ rw a (_, refl)
    | inl a ↦ elim (Bool-cases (is_web (protocol_of (trim url)))) [
      | inr b ↦ rw (a, is_http_url_lem (trim url), b) (_, refl)
      | inl b ↦ rw (a, is_http_url_lem (trim url), b) refl
    ]
  ]
  answers ntfy name url token target = elim (Bool-cases (truthy (trim url))) [
    | inr a ↦ rw a (_, refl)
    | inl a ↦ elim (Bool-cases (is_web (protocol_of (trim url)))) [
      | inr b ↦ rw (a, is_http_url_lem (trim url), b) (_, refl)
      | inl b ↦ rw (a, is_http_url_lem (trim url), b) refl
    ]
  ]
  answers gotify name url token target = elim (Bool-cases (truthy (trim url))) [
    | inr a ↦ rw a (_, refl)
    | inl a ↦ elim (Bool-cases (is_web (protocol_of (trim url)))) [
      | inr b ↦ rw (a, is_http_url_lem (trim url), b) (_, refl)
      | inl b ↦ elim (Bool-cases (truthy (trim token))) [
        | inr c ↦ rw (a, is_http_url_lem (trim url), b, c) (_, refl)
        | inl c ↦ rw (a, is_http_url_lem (trim url), b, c) refl
      ]
    ]
  ]
  answers telegram name url token target = elim (Bool-cases (truthy (trim token))) [
    | inr a ↦ rw a (_, refl)
    | inl a ↦ elim (Bool-cases (truthy (trim target))) [
      | inr b ↦ rw (a, b) (_, refl)
      | inl b ↦ rw (a, b) refl
    ]
  ]

  -- A draft gives a payload exactly if it is complete for its type: a URL that the parser takes, with the
  -- protocol http: or https:,
  -- a token, a chat id, each where the type needs it, and none of them blank. The payload then holds
  -- the type, the name unless it is blank, and the fields that the type needs, all trimmed, and no
  -- others. Any other draft gives an error.
  pub build_channel_payload-Answers :
      (draft : ChannelDraft)
      → Answers (is_complete draft) (payload_of draft) (build_channel_payload protocol_of draft)
  unfolding build_channel_payload
  build_channel_payload-Answers draft =
      answers draft.channel_type draft.name draft.url draft.token draft.target
