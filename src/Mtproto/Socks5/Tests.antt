-- ===== src/Mtproto/Socks5/Tests.antt =====
-- A connection to a host by its name.
use mtproto_checker.Common.{Bytes, [], none, replicate, some, ◌∷◌}
use mtproto_checker.Common.Text.{codes}
use mtproto_checker.Mtproto.Socks5.{Net}

-- Every address is the host `a` at port 1.
abbrev net : Net
net = record { split_host_port = λ s. some (codes "a", codes "1"); parse_ip = λ s. none }

abbrev request : Bytes
request = 5 ∷ 1 ∷ 0 ∷ 3 ∷ 1 ∷ 97 ∷ 0 ∷ 1 ∷ []

abbrev bound : Bytes
bound = replicate 6 0
