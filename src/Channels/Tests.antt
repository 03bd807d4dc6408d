-- ===== src/Channels/Tests.antt =====
-- A Gotify channel whose token is missing, and one that is complete.
use logdeck.Base.{◌≡◌, refl, Option, none, some, if◌then◌else◌}
use logdeck.Base.Text.{Text, codes, starts_with, trim}
use logdeck.Channels.{ChannelDraft, gotify, error, build_channel_payload}
use logdeck.Channels.Payload.{Answers, is_complete, payload_of, build_channel_payload-Answers}

abbrev protocol_of : Text → Option Text
protocol_of url = if starts_with url (codes "https:") then some (codes "https:") else none

abbrev draft : Text → ChannelDraft
draft token = record {
  channel_type = gotify;
  name = codes " phone ";
  url = codes "https://g";
  token = token;
  target = codes "x";
}

missing_token :
    build_channel_payload protocol_of (draft (codes " "))
    ≡ error (codes "A Gotify app token is required")
unfolding build_channel_payload trim
missing_token = refl

build_channel_payload-Answers_example :
    Answers protocol_of
      (is_complete protocol_of (draft (codes "t")))
      (payload_of protocol_of (draft (codes "t")))
      (build_channel_payload protocol_of (draft (codes "t")))
build_channel_payload-Answers_example =
    build_channel_payload-Answers protocol_of (draft (codes "t"))
