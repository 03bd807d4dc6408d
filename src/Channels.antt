-- ===== src/Channels.antt =====
-- frontend/src/features/settings/components/channel-utils.ts: alert channels from the settings form.
pub mod Payload
mod Tests
use logdeck.Base.{Bool, true, false, not, ◌||◌, Option, none, some, [], ◌++◌, if◌then◌else◌}
use logdeck.Base.Text.{Text, codes, text_eq, truthy, ◌or_else◌, trim}
use logdeck.LogEntries.{or_null}

pub data AlertChannelType : Type 0 where
  webhook ntfy gotify telegram : AlertChannelType

-- `Omit<AlertChannel, "id">`
pub record AlertChannelPayload : Type 0 where
  pub channel_type : AlertChannelType
  pub name : Option Text
  pub enabled : Bool
  pub url : Option Text
  pub token : Option Text
  pub target : Option Text

pub record ChannelDraft : Type 0 where
  pub channel_type : AlertChannelType
  pub name : Text
  pub url : Text
  pub token : Text
  pub target : Text

-- `{ error: string } | { payload: AlertChannelPayload }`
pub data ChannelResult : Type 0 where
  error : Text → ChannelResult
  payload : AlertChannelPayload → ChannelResult

abbrev pub is_telegram : AlertChannelType → Bool
is_telegram telegram = true
is_telegram _ = false

pub channel_destination : AlertChannelPayload → Text
channel_destination c =
    if is_telegram c.channel_type
    then (if truthy (or_null c.target []) then codes "chat " ++ or_null c.target [] else codes "—")
    else or_null c.url [] or_else codes "—"

-- `if (name) payload.name = name`
abbrev pub if_truthy : Text → Option Text
if_truthy name = if truthy name then some name else none

-- `protocol_of` is the platform's URL parser: the protocol, or `none` where it throws.
module _ (protocol_of : Text → Option Text) where
  unfoldable pub is_http_url : Text → Bool
  is_http_url value = elim (protocol_of value) [
    | none ↦ false
    | some protocol ↦ text_eq protocol (codes "http:") || text_eq protocol (codes "https:")
  ]

  -- The payload before the `switch`.
  abbrev pub base_payload : ChannelDraft → AlertChannelPayload
  base_payload draft = record {
    channel_type = draft.channel_type;
    name = if_truthy (trim draft.name);
    enabled = true;
    url = none;
    token = none;
    target = none;
  }

  -- The case of webhook and ntfy.
  unfoldable pub build_url_channel : ChannelDraft → ChannelResult
  unfolding is_http_url
  build_url_channel draft =
      let url = trim draft.url in
      if not (truthy url)
      then error (codes "A destination URL is required")
      else if not (is_http_url url)
      then error (codes "URL must be a valid http or https URL")
      else payload (record (base_payload draft) { url = some url })

  unfoldable pub build_gotify : ChannelDraft → ChannelResult
  unfolding is_http_url
  build_gotify draft =
      let url = trim draft.url in
      let token = trim draft.token in
      if not (truthy url)
      then error (codes "The Gotify server URL is required")
      else if not (is_http_url url)
      then error (codes "URL must be a valid http or https URL")
      else if not (truthy token)
      then error (codes "A Gotify app token is required")
      else payload (record (base_payload draft) { url = some url; token = some token })

  unfoldable pub build_telegram : ChannelDraft → ChannelResult
  build_telegram draft =
      let token = trim draft.token in
      let target = trim draft.target in
      if not (truthy token)
      then error (codes "A Telegram bot token is required")
      else if not (truthy target)
      then error (codes "A Telegram chat id is required")
      else payload (record (base_payload draft) { token = some token; target = some target })

  unfoldable pub by_type : AlertChannelType → ChannelDraft → ChannelResult
  unfolding build_url_channel build_gotify build_telegram
  by_type webhook draft = build_url_channel draft
  by_type ntfy draft = build_url_channel draft
  by_type gotify draft = build_gotify draft
  by_type telegram draft = build_telegram draft

  unfoldable pub build_channel_payload : ChannelDraft → ChannelResult
  unfolding by_type
  build_channel_payload draft = by_type draft.channel_type draft
