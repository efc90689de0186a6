-- ===== src/Scan/Tests.antt =====
-- The channels of a small file.
use caneo.Common.{◌≡◌, List, [], ◌∷◌}
use caneo.Common.Text.{Text, codes}
use caneo.Common.OrderedMap.{text_key, lookup}
use caneo.Scan.{scan_interfaces, scan_messages}
use caneo.Scan.Laws.{has, holds, some_interface, some_message, scans_lem}

abbrev topics : List Text
topics = codes "can0/M/data" ∷ codes "can0/M/raw" ∷ codes "can1/N/data" ∷ codes "model" ∷ []

scans_lem_example :
    (has (lookup (codes "can0") (scan_interfaces [] topics)) ≡ some_interface (codes "can0") topics)
    × (holds (codes "can0") (codes "M") (scan_messages [] topics)
        ≡ some_message (codes "can0") (codes "M") topics)
scans_lem_example = scans_lem topics (codes "can0") (codes "M")
