-- ===== src/Mtproto/Api/Config/Unexpected.antt =====
-- Which hosts `unexpectedAddresses` tells of.
use mtproto_checker.Common.{
  Bool-cases, Bytes, List, [], ap, arith, equal, equal_iff, equal_refl, inl, inr, map, not, refl,
  true, ◌&&◌, ◌||◌, ◌∙◌, ◌∷◌, ◌≡◌,
}
use mtproto_checker.Common.Keys.{distinct, equal-member, member}
use mtproto_checker.Mtproto.Api.Config.{
  DcOption, host_of, is_telegram_address, unexpected_addresses, unexpected_from,
}

abbrev pub hosts : List DcOption → List Bytes
hosts = map (λ o. host_of o.addr)

equal-telegram :
    (k host : Bytes) → equal k host ≡ true → is_telegram_address k ≡ is_telegram_address host
equal-telegram k host e = ap is_telegram_address ((equal_iff k host).0 e)

unexpected_from-member :
    (seen : List Bytes) (options : List DcOption) (k : Bytes)
    → member k (unexpected_from seen options)
      ≡ (member k (hosts options) && not (is_telegram_address k) && not (member k seen))
unfolding unexpected_from member
unexpected_from-member seen [] k = refl
unexpected_from-member seen (o ∷ options) k =
    let host = host_of o.addr in
    elim (Bool-cases (is_telegram_address host || member host seen)) [
      | inl e ↦
          rw (e, unexpected_from-member seen options k)
            (ground (arith, e, equal-member k host seen, equal-telegram k host))
      | inr e ↦
          rw (e, unexpected_from-member (host ∷ seen) options k)
            (ground (arith, e, equal-member k host seen, equal-telegram k host))
    ]

unexpected_from-distinct :
    (seen : List Bytes) (options : List DcOption) → distinct (unexpected_from seen options) ≡ true
unfolding unexpected_from distinct member
unexpected_from-distinct seen [] = refl
unexpected_from-distinct seen (o ∷ options) =
    let host = host_of o.addr in
    elim (Bool-cases (is_telegram_address host || member host seen)) [
      | inl e ↦ rw (e, unexpected_from-distinct seen options) refl
      | inr e ↦
          rw
            (
              e,
              unexpected_from-member (host ∷ seen) options host,
              unexpected_from-distinct (host ∷ seen) options,
            )
            (ground (arith, equal_refl host))
    ]

-- The addresses told of are pairwise different; and a host is among them exactly if it is the host of
-- one of the options and in none of Telegram's networks.
pub unexpected_addresses_lem :
    (options : List DcOption)
    → (distinct (unexpected_addresses options) ≡ true)
      × ((k : Bytes)
          → member k (unexpected_addresses options)
            ≡ (member k (hosts options) && not (is_telegram_address k)))
unfolding member
unexpected_addresses_lem options =
    (unexpected_from-distinct [] options, λ k. unexpected_from-member [] options k ∙ ground arith)
