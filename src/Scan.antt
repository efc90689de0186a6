-- ===== src/Scan.antt =====
-- The scans of src/logger/McapReader.cpp: which interfaces and messages a log file has. The channels come
-- from the MCAP library in the order of its map; a file that cannot be opened has none.
pub mod Laws
mod Tests
use caneo.Common.{
  Bool, true, false, not, ◌&&◌, Option, none, some, List, [], ◌∷◌, if◌then◌else◌, is_empty,
}
use caneo.Common.Text.{Text}
use caneo.Common.OrderedMap.{text_key, lookup, insert}
use caneo.Topic.{ChannelKind, data_kind, raw_kind, ChannelInfo, classify_topic}

-- `std::set<std::string>`.
abbrev pub TextSet : Type 0
TextSet = List (Text × Unit)

pub is_raw : ChannelKind → Bool
is_raw raw_kind = true
is_raw _ = false

pub is_data : ChannelKind → Bool
is_data data_kind = true
is_data _ = false

-- Whether a channel counts for scan_interfaces, and for scan_messages.
pub shows_interface : ChannelInfo → Bool
unfolding is_raw
shows_interface info = is_raw info.kind && not (is_empty info.iface)

pub shows_message : ChannelInfo → Bool
unfolding is_data
shows_message info =
    is_data info.kind && (not (is_empty info.iface) && not (is_empty info.msg_name))

pub add_interface : TextSet → ChannelInfo → TextSet
unfolding shows_interface insert
add_interface ifaces info = if shows_interface info then insert info.iface tt ifaces else ifaces

pub scan_interfaces : TextSet → List Text → TextSet
unfolding classify_topic add_interface
scan_interfaces ifaces [] = ifaces
scan_interfaces ifaces (topic ∷ topics) =
    scan_interfaces (add_interface ifaces (classify_topic topic)) topics

-- `iface_msgs[iface]`, which is empty at first.
pub set_at : Option TextSet → TextSet
set_at none = []
set_at (some s) = s

pub add_message : List (Text × TextSet) → ChannelInfo → List (Text × TextSet)
unfolding shows_message insert lookup set_at
add_message ms info =
    if shows_message info
    then insert info.iface (insert info.msg_name tt (set_at (lookup info.iface ms))) ms
    else ms

pub scan_messages : List (Text × TextSet) → List Text → List (Text × TextSet)
unfolding classify_topic add_message
scan_messages ms [] = ms
scan_messages ms (topic ∷ topics) = scan_messages (add_message ms (classify_topic topic)) topics
