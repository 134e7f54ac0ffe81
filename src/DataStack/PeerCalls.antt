-- ===== src/DataStack/PeerCalls.antt =====
-- The queries for the peers of a user.
use recs.Prelude.{
  ℕ, zero, suc, String, Bool, true, false, ◌≡◌, refl, inl, Option, none, some, List, [], ◌∷◌, ◌++◌,
  arith,
}
use recs.Errors.{Result, ok, err, out_of_fuel}
use recs.Uuid.{Uuid}
use recs.SharedKernel.{ActiveUserKey}
use recs.Dynamo.{QueryOutput}
use recs.Dynamo.Attributes.{Item, get}
use recs.Platform.{Platform}
use recs.RomancesRepository.Get.{pk_user_id_attr_name, sk_user_id_attr_name}
use recs.RomancesRepository.Peers.{peers_query, send_page, query_fn, get_all_peers_for_active_user}
use recs.Persistence.{new_romances_repository}
use recs.DataStack.Calls.{IsDeployedQuery, Calls, queries, Fits}

module _ {World : Type 0} (p : Platform World) (user_key : ActiveUserKey) where
  -- the world of a result, if there is one
  abbrev Reached : World → Option (List Uuid × Option Item × World) → Type 0
  Reached w none = Unit
  Reached w (some (sent, last, v)) = Calls p w v

  Reached-append :
      (w : World) (sent : List Uuid) (o : Option (List Uuid × Option Item × World))
      → Reached w o
      → Reached w (elim o [ none ↦ none | some (more, last, v) ↦ some (sent ++ more, last, v) ])
  Reached-append w sent none h = tt
  Reached-append w sent (some (more, last, v)) h = h

  module _ (fuel : ℕ) (index_name : Option String) (pk_name : String) (key : Option Item)
      (w v v' : World) (c : Calls p w v')
      (rest : (k : Item)
        → Reached w (query_fn p user_key fuel index_name pk_name (some k) v')) where
    page-Reached :
        (items : List Item) (last_key : Option Item) (all : Bool)
        → p.client.query (peers_query p user_key index_name pk_name key) v
          ≡ (ok (record { items = items; last_evaluated_key = last_key }), v')
        → (send_page p user_key items).1 ≡ all
        → Reached w (query_fn p user_key (suc fuel) index_name pk_name key v)
    unfolding query_fn
    page-Reached [] last_key all e a =
        let same : query_fn p user_key (suc fuel) index_name pk_name key v ≡ some ([], key, v') =
          ground arith in
        rw same c
    page-Reached (item ∷ items) last_key false e a =
        let same : query_fn p user_key (suc fuel) index_name pk_name key v
            ≡ some ((send_page p user_key (item ∷ items)).0, key, v') =
          ground arith in
        rw same c
    page-Reached (item ∷ items) none true e a =
        let same : query_fn p user_key (suc fuel) index_name pk_name key v
            ≡ some ((send_page p user_key (item ∷ items)).0, key, v') =
          ground arith in
        rw same c
    page-Reached (item ∷ items) (some k) true e a =
        let sent = (send_page p user_key (item ∷ items)).0 in
        let more = query_fn p user_key fuel index_name pk_name (some k) v' in
        let same : query_fn p user_key (suc fuel) index_name pk_name key v
            ≡ elim more [ none ↦ none | some (m, last, u) ↦ some (sent ++ m, last, u) ] =
          ground arith in
        rw same (Reached-append w sent more (rest k))

    queried-Reached :
        (r : Result QueryOutput)
        → p.client.query (peers_query p user_key index_name pk_name key) v ≡ (r, v')
        → Reached w (query_fn p user_key (suc fuel) index_name pk_name key v)
    unfolding query_fn
    queried-Reached (err x) e =
        let same : query_fn p user_key (suc fuel) index_name pk_name key v ≡ some ([], key, v') =
          ground arith in
        rw same c
    queried-Reached (ok out) e = page-Reached out.items out.last_evaluated_key _ e refl

  query_fn-Reached :
      (fuel : ℕ) (index_name : Option String) (pk_name : String) (key : Option Item) (w v : World)
      → ((k : Option Item) → IsDeployedQuery (peers_query p user_key index_name pk_name k))
      → Calls p w v
      → Reached w (query_fn p user_key fuel index_name pk_name key v)
  query_fn-Reached zero index_name pk_name key w v h c = unfold query_fn in tt
  query_fn-Reached (suc fuel) index_name pk_name key w v h c =
      let query = peers_query p user_key index_name pk_name key in
      let next = queries query (h key) c in
      queried-Reached fuel index_name pk_name key w v (p.client.query query v).1 next
        (λ k. query_fn-Reached fuel index_name pk_name (some k) w _ h next)
        (p.client.query query v).0 refl

  table_query :
      (k : Option Item) → IsDeployedQuery (peers_query p user_key none pk_user_id_attr_name k)
  unfolding peers_query get
  table_query k = inl (refl, (refl, _, refl, refl))

  index_query :
      (k : Option Item)
      → IsDeployedQuery (peers_query p user_key (some "gsiByMaxMinUser") sk_user_id_attr_name k)
  unfolding peers_query get
  index_query k = inl (refl, (refl, (refl, _, refl, refl)))

  -- both queries, by the result of the second and that of the first
  second-Reached :
      (fuel : ℕ) (w v v' : World) (sent : List Uuid) (last : Option Item)
      (o : Option (List Uuid × Option Item × World))
      → query_fn p user_key fuel none pk_user_id_attr_name none v ≡ some (sent, last, v')
      → query_fn p user_key fuel (some "gsiByMaxMinUser") sk_user_id_attr_name last v' ≡ o
      → Calls p w v
      → Reached w o
      → Calls p w ((new_romances_repository p fuel).get_all_peers_for_active_user user_key v).1
  unfolding get_all_peers_for_active_user
  second-Reached fuel w v v' sent last none e e' c h =
      let same : (new_romances_repository p fuel).get_all_peers_for_active_user user_key v
          ≡ (err out_of_fuel, v) =
        ground arith in
      rw same c
  second-Reached fuel w v v' sent last (some (more, last', u)) e e' c h =
      let same : (new_romances_repository p fuel).get_all_peers_for_active_user user_key v
          ≡ (ok (sent ++ more), u) =
        ground arith in
      rw same h

  first-Reached :
      (fuel : ℕ) (w v : World) (o : Option (List Uuid × Option Item × World))
      → query_fn p user_key fuel none pk_user_id_attr_name none v ≡ o
      → Calls p w v
      → Reached w o
      → Calls p w ((new_romances_repository p fuel).get_all_peers_for_active_user user_key v).1
  unfolding get_all_peers_for_active_user
  first-Reached fuel w v none e c h =
      let same : (new_romances_repository p fuel).get_all_peers_for_active_user user_key v
          ≡ (err out_of_fuel, v) =
        ground arith in
      rw same c
  first-Reached fuel w v (some (sent, last, v')) e c h =
      second-Reached fuel w v v' sent last _ e refl c (
        query_fn-Reached fuel (some "gsiByMaxMinUser") sk_user_id_attr_name last w v' index_query h)

  pub get_all_peers-Fits :
      (fuel : ℕ) → Fits p ((new_romances_repository p fuel).get_all_peers_for_active_user user_key)
  get_all_peers-Fits fuel w v c =
      first-Reached fuel w v _ refl c
        (query_fn-Reached fuel none pk_user_id_attr_name none w v table_query c)
