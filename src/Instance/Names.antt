-- ===== src/Instance/Names.antt =====
-- The words that internal/instance compares with: providers, transports, codecs.
use olcrtc_panel_lite.Common.{Bool, ◌||◌}
use olcrtc_panel_lite.Text.{Text, codes, text_eq}

abbrev pub jitsi : Text
jitsi = codes "jitsi"

abbrev pub telemost : Text
telemost = codes "telemost"

abbrev pub wbstream : Text
wbstream = codes "wbstream"

abbrev pub datachannel : Text
datachannel = codes "datachannel"

abbrev pub vp8channel : Text
vp8channel = codes "vp8channel"

abbrev pub seichannel : Text
seichannel = codes "seichannel"

abbrev pub videochannel : Text
videochannel = codes "videochannel"

abbrev pub qrcode : Text
qrcode = codes "qrcode"

abbrev pub tile : Text
tile = codes "tile"

-- providers[provider]
unfoldable pub providers : Text → Bool
providers p = text_eq p jitsi || text_eq p telemost || text_eq p wbstream

-- transports[transport]
unfoldable pub transports : Text → Bool
transports t =
    text_eq t datachannel || text_eq t vp8channel || text_eq t seichannel || text_eq t videochannel
