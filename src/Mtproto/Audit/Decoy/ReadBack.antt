-- ===== src/Mtproto/Audit/Decoy/ReadBack.antt =====
-- What the URL parser must make of a decoy's link (`decoyTarget` of internal/mtproto/audit.go), and
-- that the link is then read as one.
use mtproto_checker.Common.{
  All-append, Bool, Bytes, [], ap, arith, false, not, refl, some, true, ℕ, ◌++◌, ◌&&◌, ◌∷◌, ◌≡◌,
}
use mtproto_checker.Common.Text.{
  atoi, codes, contains, has_prefix, is_empty, is_space, pos, trim_space,
}
use mtproto_checker.Proxy.Link.{Platform, as_url, from_url, parse, with_authority}
use mtproto_checker.Mtproto.Audit.{decoy_link}
use mtproto_checker.Mtproto.Audit.Decoy.Links.{NoSpace, decoy_url, trim_keeps}

-- The same as a test, for the literal parts of a link.
clean : Bytes → Bool
unfolding is_space
clean [] = true
clean (c ∷ s) = not (is_space c) && clean s

clean-NoSpace : (s : Bytes) → clean s ≡ true → NoSpace s
unfolding clean is_space
clean-NoSpace [] h = tt
clean-NoSpace (c ∷ s) h = (ground arith, clean-NoSpace s (ground arith))

-- How the platform treats such a link: it prints the port without spaces and reads it back, and its
-- URL parser finds the three parts, which need no escapes.
pub record Reads (os : Platform) (host : Bytes) (port : ℕ) (secret : Bytes) : Type 0 where
  pub printed : NoSpace (os.itoa port)
  pub port_given : is_empty (os.itoa port) ≡ false
  pub read_back : atoi (os.itoa port) ≡ some (pos port)
  pub parsed :
      os.parse_url (decoy_link os host port secret) ≡ some (decoy_url host (os.itoa port) secret)

link-NoSpace :
    (os : Platform) (host : Bytes) (port : ℕ) (secret : Bytes)
    → NoSpace host
    → NoSpace (os.itoa port)
    → NoSpace secret
    → NoSpace (decoy_link os host port secret)
unfolding decoy_link clean is_space
link-NoSpace os host port secret h p k =
    let P = λ (c : ℕ). is_space c ≡ false in
    let back = All-append P (codes "&secret=") secret (clean-NoSpace (codes "&secret=") refl) k in
    let middle = All-append P (os.itoa port) (codes "&secret=" ++ secret) p back in
    let tail = codes "&port=" ++ (os.itoa port ++ (codes "&secret=" ++ secret)) in
    let behind =
      All-append P (codes "&port=") (os.itoa port ++ (codes "&secret=" ++ secret))
        (clean-NoSpace (codes "&port=") refl) middle in
    All-append P (codes "tg://proxy?server=") (host ++ tail)
      (clean-NoSpace (codes "tg://proxy?server=") refl) (All-append P host tail h behind)

decoy_link-given :
    (os : Platform) (host : Bytes) (port : ℕ) (secret : Bytes)
    → is_empty (decoy_link os host port secret) ≡ false
unfolding decoy_link
decoy_link-given os host port secret = refl

as_url-decoy_link :
    (os : Platform) (host : Bytes) (port : ℕ) (secret : Bytes)
    → as_url os (decoy_link os host port secret)
      ≡ with_authority os (os.parse_url (decoy_link os host port secret))
unfolding as_url decoy_link contains has_prefix
as_url-decoy_link os host port secret = refl

pub parse-decoy_link :
    (os : Platform) (host : Bytes) (port : ℕ) (secret : Bytes)
    → Reads os host port secret
    → NoSpace host
    → NoSpace secret
    → parse os (decoy_link os host port secret)
      ≡ from_url os (decoy_link os host port secret) (decoy_url host (os.itoa port) secret)
unfolding parse
parse-decoy_link os host port secret r h k =
    let link = decoy_link os host port secret in
    let kept : trim_space link ≡ link =
      trim_keeps is_space link (link-NoSpace os host port secret h r.printed k) in
    rw (kept, decoy_link-given os host port secret, as_url-decoy_link os host port secret, r.parsed)
      (ap (λ s. from_url os s (decoy_url host (os.itoa port) secret)) kept)
