-- ===== src/Tests/Uris.antt =====
-- Sample runs for internal/instance/uri.go.
use olcrtc_panel_lite.Common.{◌≡◌, refl, ok, arith}
use olcrtc_panel_lite.Text.{
  Text, codes, text_eq, byte_len, trim_space, trim_left, trim_right, is_space, join, replace_rune,
  utf8, fields, fields_from, to_lower,
}
use olcrtc_panel_lite.Text.Number.{itoa, format_uint, digits}
use olcrtc_panel_lite.Text.Escape.{query_escape}
use olcrtc_panel_lite.Tests.Samples.{sample_instance, sample_key, sample_options, sample_net}
use olcrtc_panel_lite.Instance.Uri.Client.{
  client_uri, strip_auth_token, client_uri_checks, client_parts, vp8_parts, token_parts, dns_parts,
  name_fragment, validate_key, client_compatible, client_escape,
}
use olcrtc_panel_lite.Instance.Uri.Client.Parts.{omitting}
use olcrtc_panel_lite.Instance.Uri.Client.Strip.{strip_auth_token-client_uri}
use olcrtc_panel_lite.Text.{to_lower_rune}
use olcrtc_panel_lite.Text.Number.{parse_int, parse_uint, scan}
use olcrtc_panel_lite.Instance.Names.{providers, transports}
use olcrtc_panel_lite.Instance.Uri.Standard.Render.{
  standard_uri, validate_uri_fields, standard_comment, comment_rune, standard_payload, bracketed,
  sort_keys, insert_key, present, standard_params, vp8_params,
}
use olcrtc_panel_lite.Instance.Uri.Standard.Check.{validate_standard_uri}
use olcrtc_panel_lite.Instance.Uri.Standard.Params.{IsClean}
use olcrtc_panel_lite.Instance.Uri.Standard.Values.{CanRender}
use olcrtc_panel_lite.Instance.Uri.Standard.RoundTrip.{validate_standard_uri-standard_uri}
use olcrtc_panel_lite.Instance.Uri.Accept.{
  validate_client_uri, check_client_url, check_parsed_query, check_query, check_dns, check_number,
  check_aliases, check_transport, parameter, found_from, first_entry, entries_of, is_refused,
  allowed_names, uri_provider,
}
use olcrtc_panel_lite.Instance.Uri.Accept.Sound.{AcceptedUri, validate_client_uri-Accepted}

abbrev client_text : Text
client_text =
    codes
      "olcrtc://wbstream@r/room?k=0123456789abcdef0123456789abcdef0123456789abcdef0123456789ABCDEF&t=vp8channel&f=25&b=64&c=c1&a=t%2B1&d=8.8.8.8%3A53#my%20home"

client_rendered : client_uri sample_instance sample_key (codes "my home") ≡ ok client_text
unfolding client_uri client_uri_checks client_parts vp8_parts token_parts dns_parts name_fragment
    validate_key client_compatible client_escape itoa format_uint digits query_escape text_eq
    byte_len utf8 trim_space trim_left trim_right is_space join replace_rune
client_rendered = refl

strip_auth_token-client_uri_example :
    client_uri (omitting sample_instance) sample_key (codes "my home")
    ≡ ok (strip_auth_token client_text)
strip_auth_token-client_uri_example =
    strip_auth_token-client_uri sample_instance sample_key (codes "my home") client_text
      client_rendered

abbrev standard_text : Text
standard_text =
    codes
      "olcrtc://wbstream?vp8channel<vp8-fps=25>@room#0123456789abcdef0123456789abcdef0123456789abcdef0123456789ABCDEF$my - home"

standard_rendered :
    standard_uri sample_instance sample_key (codes " my @  home ") ≡ ok standard_text
unfolding standard_uri validate_uri_fields standard_comment comment_rune standard_payload bracketed
    sort_keys insert_key present standard_params vp8_params validate_key providers transports itoa
    format_uint digits text_eq byte_len utf8 join fields fields_from is_space
standard_rendered = refl

qrcode_IsClean : IsClean (codes "qrcode")
unfolding trim_space trim_left trim_right is_space
qrcode_IsClean = record {
  filled = refl;
  trimmed = refl;
  plain = (refl, (refl, (refl, (refl, (refl, (refl, tt))))));
}

low_IsClean : IsClean (codes "low")
unfolding trim_space trim_left trim_right is_space
low_IsClean = record { filled = refl; trimmed = refl; plain = (refl, (refl, (refl, tt))) }

sample_CanRender : CanRender sample_options
sample_CanRender = record {
  vp8_fps = omega arith;
  vp8_batch = omega arith;
  sei_fps = omega arith;
  sei_batch = omega arith;
  sei_fragment = omega arith;
  sei_ack_ms = omega arith;
  video_width = omega arith;
  video_height = omega arith;
  video_fps = omega arith;
  video_codec = qrcode_IsClean;
  video_qr_size = omega arith;
  video_qr_recover = low_IsClean;
  video_tile = omega arith;
  video_tile_rs = omega arith;
}

validate_standard_uri-standard_uri_example : validate_standard_uri standard_text ≡ ok tt
unfolding trim_space trim_left trim_right is_space byte_len utf8
validate_standard_uri-standard_uri_example =
    validate_standard_uri-standard_uri sample_instance sample_key (codes " my @  home ")
      standard_text standard_rendered refl sample_CanRender (omega arith)

accepted_sample : validate_client_uri sample_net (codes " olcrtc://wbstream@r/room ") ≡ ok tt
unfolding validate_client_uri check_client_url check_parsed_query check_query check_dns check_number
    check_aliases check_transport parameter found_from first_entry entries_of is_refused
    allowed_names uri_provider validate_key client_compatible parse_int parse_uint scan text_eq
    byte_len utf8 to_lower to_lower_rune trim_space trim_left trim_right is_space
accepted_sample = refl

validate_client_uri-Accepted_example : AcceptedUri sample_net (codes " olcrtc://wbstream@r/room ")
validate_client_uri-Accepted_example =
    validate_client_uri-Accepted sample_net (codes " olcrtc://wbstream@r/room ") accepted_sample
