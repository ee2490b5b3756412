-- ===== src/Filter/Tests.antt =====
-- A link that is wanted by its port, and one that is excluded.
use mtproto_checker.Common.{Option, [], equal, false, inl, refl, some, true, ◌↔◌, ◌∷◌, ◌≡◌}
use mtproto_checker.Common.Text.{codes, has_prefix, is_space, pos, trim_left, trim_right}
use mtproto_checker.Common.Keys.{member}
use mtproto_checker.Proxy.Link.Tests.{link, os, parse-link, target}
use mtproto_checker.Filter.{Info, Spec, links, load_exclusions}
use mtproto_checker.Filter.Excluded.{IsWanted, links-IsWanted, load_exclusions-links}

abbrev port_one : Spec
port_one = record { modes = []; ports = pos 1 ∷ []; countries = []; asns = []; exclude = [] }

links-IsWanted_example :
    (member link (links os port_one (link ∷ [])) ≡ true)
    ↔ ((member link (link ∷ []) ≡ true) × IsWanted os port_one target)
links-IsWanted_example = links-IsWanted os port_one link (link ∷ []) target parse-link

load_exclusions-links_test :
    member link
      (links os (record port_one { exclude = load_exclusions os (link ∷ []) }) (link ∷ []))
    ≡ false
unfolding member equal has_prefix trim_left trim_right is_space
load_exclusions-links_test =
    load_exclusions-links os link (link ∷ []) (link ∷ []) port_one link target target refl refl
      parse-link parse-link (inl refl)

abbrev german : Spec
german = record { modes = []; ports = []; countries = codes "de" ∷ []; asns = []; exclude = [] }

-- A result is its own place.
abbrev own : Option Info → Option Info
own place = place

abbrev berlin : Option Info
berlin = some (record { code = codes "DE"; asn = pos 1 })
