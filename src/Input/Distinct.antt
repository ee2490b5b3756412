-- ===== src/Input/Distinct.antt =====
-- `Dedup` keeps one link of each key.
use mtproto_checker.Common.{
  Bool-cases, Bytes, List, [], ap, arith, equal_refl, false, inl, inr, map, not, refl, true, ◌&&◌,
  ◌∙◌, ◌∷◌, ◌≡◌,
}
use mtproto_checker.Common.Keys.{distinct, equal-member, member}
use mtproto_checker.Proxy.Link.{Platform}
use mtproto_checker.Input.{dedup, dedup_from, link_key}

module _ (os : Platform) where
  abbrev pub keys : List Bytes → List Bytes
  keys = map (link_key os)

  dedup_from-member :
      (seen links : List Bytes) (k : Bytes)
      → member k (keys (dedup_from os seen links)) ≡ (member k (keys links) && not (member k seen))
  unfolding dedup_from member
  dedup_from-member seen [] k = refl
  dedup_from-member seen (link ∷ links) k = elim (Bool-cases (member (link_key os link) seen)) [
    | inl e ↦
        rw (e, dedup_from-member seen links k)
          (ground (arith, equal-member k (link_key os link) seen))
    | inr e ↦
        rw (e, dedup_from-member (link_key os link ∷ seen) links k)
          (ground (arith, equal-member k (link_key os link) seen))
  ]

  dedup_from-distinct :
      (seen links : List Bytes) → distinct (keys (dedup_from os seen links)) ≡ true
  unfolding dedup_from distinct member
  dedup_from-distinct seen [] = refl
  dedup_from-distinct seen (link ∷ links) = elim (Bool-cases (member (link_key os link) seen)) [
    | inl e ↦ rw (e, dedup_from-distinct seen links) refl
    | inr e ↦
        rw
          (
            e,
            dedup_from-member (link_key os link ∷ seen) links (link_key os link),
            dedup_from-distinct (link_key os link ∷ seen) links,
          )
          (ground (arith, equal_refl (link_key os link)))
  ]

  -- The links that `Dedup` keeps have pairwise different keys.
  pub dedup-distinct : (links : List Bytes) → distinct (keys (dedup os links)) ≡ true
  unfolding dedup member
  dedup-distinct links = dedup_from-distinct [] links

  -- `Dedup` loses no key: a key is that of a link that it keeps exactly if it is that of a link
  -- that it was given.
  pub dedup-member :
      (links : List Bytes) (k : Bytes) → member k (keys (dedup os links)) ≡ member k (keys links)
  unfolding dedup member
  dedup-member links k = dedup_from-member [] links k ∙ ground arith

  -- Where the keys are pairwise different and none is in `seen`, the loop changes nothing.
  dedup_from-fixed :
      (seen links : List Bytes)
      → distinct (keys links) ≡ true
      → ((k : Bytes) → member k (keys links) ≡ true → member k seen ≡ false)
      → dedup_from os seen links ≡ links
  unfolding dedup_from distinct member
  dedup_from-fixed seen [] d f = refl
  dedup_from-fixed seen (link ∷ links) d f =
      let new : member (link_key os link) seen ≡ false =
        f (link_key os link) (ground (arith, equal_refl (link_key os link))) in
      rw new (
        ap (◌∷◌ link) (
          dedup_from-fixed (link_key os link ∷ seen) links (ground arith)
            (λ k h. ground (arith, f k, equal-member k (link_key os link) (keys links)))))

  -- What `Dedup` gives, it gives back unchanged.
  pub dedup-dedup : (links : List Bytes) → dedup os (dedup os links) ≡ dedup os links
  unfolding dedup member
  dedup-dedup links = dedup_from-fixed [] (dedup os links) (dedup-distinct links) (λ k h. refl)
