-- ===== src/Input/Tests.antt =====
-- Two links to one target.
use mtproto_checker.Common.{Bytes, List, [], ◌∷◌}
use mtproto_checker.Common.Text.{codes}
use mtproto_checker.Proxy.Link.Tests.{link}

abbrev twice : List Bytes
twice = link ∷ codes "b:1" ∷ link ∷ []
