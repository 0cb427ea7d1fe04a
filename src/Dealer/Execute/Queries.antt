-- ===== src/Dealer/Execute/Queries.antt =====
-- What the queries of a running dealer answer.
use snip721_migratable.Base.{◌≡◌}
use snip721_migratable.Exec.{ok}
use snip721_migratable.Cosmwasm.{Env}
use snip721_migratable.Dealer.Msg.{
  DealerState, get_prices, get_child_snip721, prices_answer, contract_info,
}
use snip721_migratable.Dealer.State.View.{view}
use snip721_migratable.Dealer.State.Represents.{Represents}
use snip721_migratable.Dealer.Execute.{query, query_prices, query_child_snip721}
use snip721_migratable.Platform.{Platform}
use snip721_migratable.Platform.Laws.{Laws}

module _ (p : Platform) (laws : Laws p) (env : Env p.Circumstance) (s : p.Storage)
    (d : DealerState p.types) (rep : Represents p s d) where
  open p use {Binary, query_answer_json}

  -- Under the laws of the libraries, a running dealer answers both queries: with the prices that
  -- it charges, and with the readable address and the code hash of the child that it mints on.
  pub queries_answer :
      ((b : Binary) × (query p s env get_prices ≡ ok b)
        × (query_answer_json.decode b ≡ ok (prices_answer d.prices)))
      × ((b : Binary) × (query p s env get_child_snip721 ≡ ok b)
          × (query_answer_json.decode b
              ≡ ok (
                  contract_info (record {
                    address = d.child_snip721_address;
                    code_hash = d.child_snip721_code_hash;
                  }))))
  unfolding query query_prices query_child_snip721 view
  queries_answer =
      let (b, he, hd) = laws.message.query_answer_faithful.round_trip (prices_answer d.prices) in
      let (b', he', hd') = laws.message.query_answer_faithful.round_trip (
        contract_info
          (record { address = d.child_snip721_address; code_hash = d.child_snip721_code_hash })) in
      (
        (b, simp (rep.prices, he), hd),
        (b', simp (rep.address, rep.child_form.humanized, rep.code_hash, he'), hd'),
      )
