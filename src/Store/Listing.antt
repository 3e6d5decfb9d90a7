-- ===== src/Store/Listing.antt =====
-- The proofs about List and UserSlot of internal/store/store.go on a covered database.
use sandbox_manager.Prelude.{
  ◌≡◌, refl, String, List, [], ◌∷◌, Option, none, some, arith, str_eq, if◌then◌else◌, Result, ok,
  err, pure, attempt, ◌>>=◌, All, subst, sym, continue, continue-keeps, ◌∙◌,
}
use sandbox_manager.Sandbox.{Sandbox}
use sandbox_manager.Redis.{
  Server, Link, SetKey, roundtrip, roundtrip-db, all_key, user_key, slot_key,
}
use sandbox_manager.Store.{fetch, list, collect, keep_found, user_slot}
use sandbox_manager.Store.Covers.{IsCovered, Owns, Running}
use sandbox_manager.Store.Requests

module _ (srv : Server) where
  open srv.redis use {get}

  collect-quiet : (ids : List String) (l : Link srv) → (collect srv ids l).1.db ≡ l.db
  unfolding collect ◌>>=◌ attempt pure
  collect-quiet [] l = refl
  collect-quiet (id ∷ ids) l =
      let l1 = (fetch srv id l).1 in
      ground (arith, collect-quiet ids l1, Requests.fetch-quiet srv id l)

  pub list-quiet : (user_id : String) (l : Link srv) → (list srv user_id l).1.db ≡ l.db
  unfolding list roundtrip ◌>>=◌
  list-quiet user_id l =
      let key = if str_eq user_id "" then all_key else user_key user_id in
      let asked = roundtrip srv (λ d. (srv.redis.members d key, d)) l in
      let quiet =
        roundtrip-db srv (λ d. d ≡ l.db) (λ d. (srv.redis.members d key, d)) l refl refl in
      continue-keeps (λ (m : Link srv). m.db ≡ l.db) asked.0 (collect srv) asked.1 quiet
        (λ ids. collect-quiet ids asked.1 ∙ quiet)

  -- A collection never fails.
  collect-total :
      (ids : List String) (l : Link srv) → (sbs : List Sandbox) × ((collect srv ids l).0 ≡ ok sbs)
  unfolding collect ◌>>=◌ attempt pure
  collect-total [] l = ([], refl)
  collect-total (id ∷ ids) l =
      let (rest, e) = collect-total ids (fetch srv id l).1 in
      (keep_found srv (fetch srv id l).0 rest, ground arith)

  module _ (run : Running srv) where
    keep_found-Owns :
        (id : String) (l : Link srv) (rest : List Sandbox)
        → IsCovered srv run l.db
        → All (Owns srv run) rest
        → All (Owns srv run) (keep_found srv (fetch srv id l).0 rest)
    keep_found-Owns id l rest h own = go (fetch srv id l).0 refl
      where
        go :
            (r : Result (Option Sandbox))
            → (fetch srv id l).0 ≡ r
            → All (Owns srv run) (keep_found srv r rest)
        go (ok (some sb)) e = ((Requests.fetch-Owns srv id l sb h e).1, own)
        go (ok none) e = own
        go (err e') e = own

    collect-Owns :
        (ids : List String) (l : Link srv) (sbs : List Sandbox)
        → IsCovered srv run l.db
        → (collect srv ids l).0 ≡ ok sbs
        → All (Owns srv run) sbs
    unfolding collect ◌>>=◌ attempt pure
    collect-Owns [] l sbs h e =
        let same : [] ≡ sbs = ground arith in subst (All (Owns srv run)) same tt
    collect-Owns (id ∷ ids) l sbs h e =
        let l1 = (fetch srv id l).1 in
        let (rest, f) = collect-total ids l1 in
        let h1 = subst (IsCovered srv run) (sym (Requests.fetch-quiet srv id l)) h in
        let own = keep_found-Owns id l rest h (collect-Owns ids l1 rest h1 f) in
        let same : keep_found srv (fetch srv id l).0 rest ≡ sbs = ground arith in
        subst (All (Owns srv run)) same own

    pub list-Owns :
        (user_id : String) (l : Link srv) (sbs : List Sandbox)
        → IsCovered srv run l.db
        → (list srv user_id l).0 ≡ ok sbs
        → All (Owns srv run) sbs
    unfolding list roundtrip ◌>>=◌
    list-Owns user_id l sbs h e = go asked.0 e
      where
        key : SetKey
        key = if str_eq user_id "" then all_key else user_key user_id

        asked : Result (List String) × Link srv
        asked = roundtrip srv (λ d. (srv.redis.members d key, d)) l

        covered : IsCovered srv run asked.1.db
        covered = roundtrip-db srv (IsCovered srv run) (λ d. (srv.redis.members d key, d)) l h h

        go :
            (r : Result (List String))
            → (continue r (collect srv) asked.1).0 ≡ ok sbs
            → All (Owns srv run) sbs
        go (ok ids) f = collect-Owns ids asked.1 sbs covered f
        go (err e') f = absurd (ground arith)

  pub user_slot-holder :
      (user_id holder id : String) (l : Link srv)
      → (user_slot srv user_id l).0 ≡ ok holder
      → get l.db (slot_key user_id) ≡ some id
      → holder ≡ id
  unfolding user_slot roundtrip ◌>>=◌ pure
  user_slot-holder user_id holder id l e f = ground arith
