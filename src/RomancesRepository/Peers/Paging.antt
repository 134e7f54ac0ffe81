-- ===== src/RomancesRepository/Peers/Paging.antt =====
-- What is sent when the pages of the two queries decode.
use recs.Prelude.{
  ℕ, zero, suc, ◌≤◌, ◌<◌, String, ◌≡◌, ◌≢◌, refl, true, Option, none, some, List, [], ◌∷◌, ◌++◌,
  arith,
}
use recs.Errors.{ok}
use recs.Uuid.{Uuid}
use recs.SharedKernel.{ActiveUserKey}
use recs.Dynamo.Attributes.{Item}
use recs.Platform.{Platform}
use recs.RomancesRepository.Get.{pk_user_id_attr_name, sk_user_id_attr_name}
use recs.RomancesRepository.Peers.{
  peers_query, peer_of, send_page, query_fn, get_all_peers_for_active_user,
}

module _ {World : Type 0} (p : Platform World) (user_key : ActiveUserKey) where
  -- Items that decode to the peers.
  abbrev pub SentAs : List Item → List Uuid → Type 0
  SentAs [] [] = Unit
  SentAs (item ∷ items) (peer ∷ peers) = (peer_of p user_key item ≡ ok peer) × SentAs items peers
  SentAs [] (peer ∷ peers) = ⊥
  SentAs (item ∷ items) [] = ⊥

  send_page-SentAs :
      (items : List Item) (peers : List Uuid)
      → SentAs items peers
      → send_page p user_key items ≡ (peers, true)
  unfolding send_page
  send_page-SentAs [] [] s = refl
  send_page-SentAs [] (peer ∷ peers) s = absurd s
  send_page-SentAs (item ∷ items) [] s = absurd s
  send_page-SentAs (item ∷ items) (peer ∷ peers) (e, s) =
      ground (arith, send_page-SentAs items peers s)

  module _ (index_name : Option String) (pk_name : String) where
    -- The pages of a query that starts after a key: their number, the peers of their items, and the
    -- key after which the last page was asked for. A page that is not the last one is not empty.
    pub data Pages : ℕ → Option Item → World → List Uuid → Option Item → World → Type 0 where
      last_page :
          {start : Option Item} {w w' : World} {items : List Item} {peers : List Uuid}
          → p.client.query (peers_query p user_key index_name pk_name start) w
            ≡ (ok (record { items = items; last_evaluated_key = none }), w')
          → SentAs items peers
          → Pages 1 start w peers start w'
      more_pages :
          {n : ℕ} {start last : Option Item} {w w' v : World} {item key : Item} {items : List Item}
          (peers : List Uuid) {more : List Uuid}
          → p.client.query (peers_query p user_key index_name pk_name start) w
            ≡ (ok (record { items = item ∷ items; last_evaluated_key = some key }), w')
          → SentAs (item ∷ items) peers
          → Pages n (some key) w' more last v
          → Pages (suc n) start w (peers ++ more) last v

    query_last :
        (fuel : ℕ) {start : Option Item} {w w' : World} (items : List Item) (peers : List Uuid)
        → p.client.query (peers_query p user_key index_name pk_name start) w
          ≡ (ok (record { items = items; last_evaluated_key = none }), w')
        → SentAs items peers
        → query_fn p user_key (suc fuel) index_name pk_name start w ≡ some (peers, start, w')
    unfolding query_fn
    query_last fuel [] [] h s = ground arith
    query_last fuel [] (peer ∷ peers) h s = absurd s
    query_last fuel (item ∷ items) peers h s =
        ground (arith, send_page-SentAs (item ∷ items) peers s)

    query_more :
        (fuel : ℕ) (start : Option Item) (peers : List Uuid) {last : Option Item} {w w' v : World}
        {item key : Item} {items : List Item} {more : List Uuid}
        → p.client.query (peers_query p user_key index_name pk_name start) w
          ≡ (ok (record { items = item ∷ items; last_evaluated_key = some key }), w')
        → SentAs (item ∷ items) peers
        → query_fn p user_key fuel index_name pk_name (some key) w' ≡ some (more, last, v)
        → query_fn p user_key (suc fuel) index_name pk_name start w ≡ some (peers ++ more, last, v)
    unfolding query_fn
    query_more fuel start peers {item = item} {items = items} h s e =
        ground (arith, send_page-SentAs (item ∷ items) peers s)

    pub query_fn-Pages :
        (fuel : ℕ) {n : ℕ} {start last : Option Item} {w v : World} {peers : List Uuid}
        → n ≤ fuel
        → Pages n start w peers last v
        → query_fn p user_key fuel index_name pk_name start w ≡ some (peers, last, v)
    query_fn-Pages zero b (last_page h s) = absurd (omega arith)
    query_fn-Pages zero b (more_pages _ h s more) = absurd (omega arith)
    query_fn-Pages (suc fuel) b (last_page {items = items} {peers = peers} h s) =
        query_last fuel items peers h s
    query_fn-Pages (suc fuel) {start = start} b (more_pages peers h s more) =
        query_more fuel start peers h s (query_fn-Pages fuel (omega arith) more)

  module _ {index_name : Option String} {pk_name : String} where
    Pages-started :
        {n : ℕ} {start last : Option Item} {w v : World} {peers : List Uuid}
        → Pages index_name pk_name n start w peers last v
        → start ≢ none
        → (1 ≤ n) × (last ≢ none)
    Pages-started (last_page h s) t = (omega arith, t)
    Pages-started (more_pages _ h s more) t =
        (omega (arith, (Pages-started more (λ e. cc)).0), (Pages-started more (λ e. cc)).1)

    -- the key that a query leaves behind
    Pages-last :
        {n : ℕ} {start last : Option Item} {w v : World} {peers : List Uuid}
        → Pages index_name pk_name n start w peers last v
        → (n ≡ 1 → last ≡ start) × (1 < n → last ≢ none)
    Pages-last (last_page h s) = (λ e. refl, λ l. absurd (omega arith))
    Pages-last (more_pages _ h s more) =
        let (positive, started) = Pages-started more (λ e. cc) in
        (λ e. absurd (omega arith), λ l. started)

  -- If the pages of both queries decode, and there is fuel for as many as either has, the loop ends
  -- and sends the peers of all of them, in order. The second query starts after the key that the
  -- first one left: that is no key if the first query had one page, so that the second one starts at
  -- its beginning, and is a key of the table if it had more.
  pub get_all_peers-Pages :
      (fuel m n : ℕ) {last last' : Option Item} {w w' v : World} {peers more : List Uuid}
      → m ≤ fuel
      → n ≤ fuel
      → Pages none pk_user_id_attr_name m none w peers last w'
      → Pages (some "gsiByMaxMinUser") sk_user_id_attr_name n last w' more last' v
      → (get_all_peers_for_active_user p user_key fuel w ≡ some (peers ++ more, v))
        × (m ≡ 1 → last ≡ none)
        × (1 < m → last ≢ none)
  unfolding get_all_peers_for_active_user
  get_all_peers-Pages fuel m n a b first second = (
    ground (
      arith,
      query_fn-Pages none pk_user_id_attr_name fuel a first,
      query_fn-Pages (some "gsiByMaxMinUser") sk_user_id_attr_name fuel b second,
    ),
    (Pages-last first).0,
    (Pages-last first).1,
  )
