-- ===== src/Geo/Cache.antt =====
-- The cache, with any number of lookups under way at a time.
use mathlib.Core.Path.{subst}
use mtproto_checker.Common.{
  All, List, Option, none, some_cancel, ◌++◌, ◌∷◌, Bool-cases, Bytes, Option-cases, Result-cases,
  [], equal, equal_iff, equal_refl, inl, inr, refl, some, ◌≡◌,
}
use mtproto_checker.Geo.{
  Cache, Net, Place, address_of, bad_request, Lookups, begin_lookup, cached, end_lookup, fill,
  look_up, malformed, no_answer, nowhere, refused, answer_lookup,
}

-- A goroutine calls `Lookup`, or one that asks comes back; the lookups interleave in any order, and
-- the world answers every time as it likes.
pub data Step (s : Lookups) : Lookups → Type 0 where
  begin : (host : Bytes) → Step s (begin_lookup host s)
  return :
      (net : Net) (host : Bytes) (before after : List Bytes)
      → s.asking ≡ before ++ (host ∷ after)
      → Step s (answer_lookup net host (before ++ after) s)

abbrev pub start : Lookups
start = record { cache = []; asking = []; answers = [] }

pub data Reach : Lookups → Type 0 where
  here : Reach start
  later : {s t : Lookups} → Reach s → Step s t → Reach t

fill-host : (net : Net) (info : Place) → (fill net info).host ≡ info.host
unfolding fill
fill-host net info = elim (Result-cases (net.fetch info.ip)) [
  | inl (payload, got) ↦ elim (Bool-cases (refused payload.success)) [
    | inl bad ↦ rw (fill, got, bad) refl
    | inr good ↦ rw (fill, got, good) refl
  ]
  | inr (bad_request text, e) ↦ rw (fill, e) refl
  | inr (no_answer text, e) ↦ rw (fill, e) refl
  | inr (malformed, e) ↦ rw (fill, e) refl
]

look_up-host : (net : Net) (host : Bytes) → (look_up net host).host ≡ host
unfolding look_up
look_up-host net host = elim (Option-cases (address_of net host)) [
  | inl lost ↦ rw (look_up, lost) refl
  | inr (ip, found) ↦ rw (look_up, found) (fill-host net (record (nowhere host) { ip = ip }))
]

-- What was learnt about the host, of some answer of the world, and a place of that host.
pub record IsLearnt (host : Bytes) (p : Place) : Type 0 where
  pub net : Net
  pub learnt : p ≡ look_up net host
  pub about : p.host ≡ host

end_lookup-IsLearnt :
    (net : Net) (host : Bytes) (cache : Cache) → IsLearnt host (end_lookup net host cache).0
unfolding end_lookup
end_lookup-IsLearnt net host cache = record {
  net = net;
  learnt = refl;
  about = look_up-host net host;
}

-- The cache has something for the host.
abbrev pub IsHeld : Cache → Bytes → Type 0
IsHeld cache host = (p : Place) × (cached host cache ≡ some p)

IsHeld-push :
    (cache : Cache) (host key : Bytes) (p : Place)
    → IsHeld cache host
    → IsHeld ((key, p) ∷ cache) host
unfolding cached
IsHeld-push cache host key p (q, e) = elim (Bool-cases (equal key host)) [
  | inl same ↦ (p, rw (cached, same) refl)
  | inr other ↦ (q, rw (cached, other) e)
]

IsHeld-all :
    (cache : Cache) (key : Bytes) (p : Place) (answers : List (Bytes × Place))
    → All (λ (a : Bytes × Place). IsHeld cache a.0) answers
    → All (λ (a : Bytes × Place). IsHeld ((key, p) ∷ cache) a.0) answers
IsHeld-all cache key p [] h = tt
IsHeld-all cache key p (a ∷ answers) (first, h) =
    (IsHeld-push cache a.0 key p first, IsHeld-all cache key p answers h)

-- The cache holds for each host what was learnt about it, and so do the answers, whose hosts the cache
-- has.
pub record IsFaithful (s : Lookups) : Type 0 where
  pub held : (host : Bytes) (p : Place) → cached host s.cache ≡ some p → IsLearnt host p
  pub answered : All (λ (a : Bytes × Place). IsLearnt a.0 a.1) s.answers
  pub stored : All (λ (a : Bytes × Place). IsHeld s.cache a.0) s.answers

begin_lookup-IsFaithful :
    (host : Bytes) (s : Lookups) → IsFaithful s → IsFaithful (begin_lookup host s)
unfolding begin_lookup
begin_lookup-IsFaithful host s k = go (cached host s.cache) refl
  where
    go :
        (o : Option Place)
        → cached host s.cache ≡ o
        → IsFaithful (elim o [
          | some p ↦ record s { answers = (host, p) ∷ s.answers }
          | none ↦ record s { asking = host ∷ s.asking }
        ])
    go none e = record { held = k.held; answered = k.answered; stored = k.stored }
    go (some p) e = record {
      held = k.held;
      answered = (k.held host p e, k.answered);
      stored = ((p, e), k.stored);
    }

answer_lookup-IsFaithful :
    (net : Net) (host : Bytes) (others : List Bytes) (s : Lookups)
    → IsFaithful s
    → IsFaithful (answer_lookup net host others s)
unfolding answer_lookup end_lookup cached
answer_lookup-IsFaithful net host others s k = record {
  held = λ key p e. elim (Bool-cases (equal host key)) [
    | inl same ↦
        let found = some_cancel _ p (rw (cached, same) at e) in
        subst (λ k. IsLearnt k p) ((equal_iff host key).0 same)
          (subst (IsLearnt host) found (end_lookup-IsLearnt net host s.cache))
    | inr other ↦ k.held key p (rw (cached, other) at e)
  ];
  answered = (end_lookup-IsLearnt net host s.cache, k.answered);
  stored = (
    (look_up net host, rw (cached, equal_refl host) refl),
    IsHeld-all s.cache host (look_up net host) s.answers k.stored,
  );
}

-- However many lookups run at a time and however they interleave: every answer that `Lookup` has
-- returned is what was learnt of some answer of the world about the very host that was asked for, and
-- so is what the cache holds for a host; and the cache has every host that was answered about.
pub Reach-IsFaithful : {s : Lookups} → Reach s → IsFaithful s
unfolding cached
Reach-IsFaithful here = record { held = λ host p e. cc; answered = tt; stored = tt }
Reach-IsFaithful (later {s} r (begin host)) = begin_lookup-IsFaithful host s (Reach-IsFaithful r)
Reach-IsFaithful (later {s} r (return net host before after e)) =
    answer_lookup-IsFaithful net host (before ++ after) s (Reach-IsFaithful r)
