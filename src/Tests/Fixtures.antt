-- ===== src/Tests/Fixtures.antt =====
-- The fixtures of test_utils.rs in contracts/snip721-dealer/src and contracts/snip721-migratable/src,
-- and the storages of a dealer and its child that have met.
use snip721_migratable.Exec.{ok, unwrap_or}
use snip721_migratable.Base.{String, arith, ◌≡◌, ◌≢◌, refl, none, some, List, [], ◌∷◌}
use snip721_migratable.Cosmwasm.{Addr, Coin, Env, MessageInfo, SubMsgResponse, succeeded, Reply}
use snip721_migratable.Dealer.Msg.{InstantiateMsg, DealerState}
use snip721_migratable.Migratable.Msg as ChildMsg
use snip721_migratable.Dealer.State.View.{view}
use snip721_migratable.Dealer.State.Represents.{Represents}
use snip721_migratable.Platform.Laws.{HasSlot}
use snip721_migratable.Platform.Mock.{mock, mock_types, Payload}
use snip721_migratable.Platform.Mock.Lawful.{mock_dealer, mock_child, mock_admin}
use snip721_migratable.System.{Pair}
use snip721_migratable.System.Knows.{Knows-alone}
use snip721_migratable.System.Linked.{Linked}

-- `cosmwasm_std::testing::mock_info`
abbrev pub mock_info : Addr → List Coin → MessageInfo
mock_info sender funds = record { sender = sender; funds = funds }

abbrev pub admin_msg_info : MessageInfo
admin_msg_info = mock_info "admin" []

abbrev pub child_snip721_address : String
child_snip721_address = "child_snip721_addr"

abbrev pub child_snip721_code_hash : String
child_snip721_code_hash = "child_snip721_code_hash"

abbrev pub successful_child_snip721_instantiate_response : String → SubMsgResponse Payload
successful_child_snip721_instantiate_response address = record {
  bytes = none;
  events =
      record {
        ty = "instantiate";
        attributes = record { key = "contract_address"; value = address } ∷ [];
      }
      ∷ [];
}

abbrev pub successful_child_snip721_instantiate_reply : String → Reply Payload
successful_child_snip721_instantiate_reply address = record {
  id = 1;
  result = succeeded (successful_child_snip721_instantiate_response address);
}

-- `InstantiateMsg::default`
abbrev pub default_instantiate_msg : InstantiateMsg mock_types
default_instantiate_msg = record {
  snip721_code_hash = child_snip721_code_hash;
  snip721_code_id = 10;
  snip721_label = "test_snip721_label";
  prices = [];
  public_metadata = none;
  private_metadata = none;
  admin = none;
  entropy = "";
  royalty_info = none;
}

-- `instantiate_msg` of the token contract
abbrev pub instantiate_msg : MessageInfo → ChildMsg.InstantiateMsg mock_types
instantiate_msg admin_info = record {
  instantiate = record {
    name = "migratable_snip721";
    symbol = "";
    admin = some admin_info.sender;
    entropy = "";
    royalty_info = none;
    config = none;
    post_init_callback = none;
    post_init_data = none;
  };
  max_migration_complete_event_subscribers = 1;
}

-- Two prices, in different denoms.
abbrev pub scrt_price : Coin
scrt_price = record { denom = "uscrt"; amount = 100 }

abbrev pub atom_price : Coin
atom_price = record { denom = "uatom"; amount = 5 }

abbrev pub priced_msg : InstantiateMsg mock_types
priced_msg = record default_instantiate_msg {
  prices = scrt_price ∷ atom_price ∷ [];
  public_metadata = some "art";
}

abbrev pub dealer_env : Env mock.Circumstance
dealer_env = record {
  circumstance = 0;
  contract = record { address = "dealer"; code_hash = "dealer_code_hash" };
}

abbrev pub child_env : Env mock.Circumstance
child_env = record {
  circumstance = 0;
  contract = record { address = child_snip721_address; code_hash = child_snip721_code_hash };
}

-- The terms that the dealer runs on.
abbrev pub terms_here : DealerState mock_types
terms_here = record {
  admin = "admin";
  prices = scrt_price ∷ atom_price ∷ [];
  public_metadata = some "art";
  private_metadata = none;
  child_snip721_code_hash = child_snip721_code_hash;
  child_snip721_address = child_snip721_address;
}

abbrev pub dealer_storage : mock.Storage
dealer_storage =
    ("admin", Payload.addr (3 ∷ []))
    ∷ ("prices", Payload.coins (scrt_price ∷ atom_price ∷ []))
    ∷ ("childSnip721CodeHash", Payload.text child_snip721_code_hash)
    ∷ (
      "purMetadata",
      Payload.metadata (record { public_metadata = some "art"; private_metadata = none }),
    )
    ∷ ("childSnip721Addr", Payload.addr (2 ∷ []))
    ∷ (
      "subscribers",
      Payload.subscribed (record { address = 2 ∷ []; code_hash = child_snip721_code_hash } ∷ []),
    )
    ∷ []

abbrev pub child_storage : mock.Storage
child_storage =
    (
      "subscribers",
      Payload.subscribed (record { address = 1 ∷ []; code_hash = "dealer_code_hash" } ∷ []),
    )
    ∷ []

abbrev pub met_pair : Pair mock
met_pair = record {
  dealer = dealer_env.contract;
  child = child_env.contract;
  dealer_storage = dealer_storage;
  child_storage = child_storage;
}

pub dealer_represents : Represents mock dealer_storage terms_here
unfolding view
dealer_represents = record {
  raw_admin = 3 ∷ [];
  raw_child = 2 ∷ [];
  admin_form = mock_admin;
  child_form = mock_child;
  admin = refl;
  address = refl;
  code_hash = refl;
  prices = refl;
  metadata = refl;
}

-- What the library keeps in an empty storage.
pub fresh_lists : unwrap_or [] (view mock []).subscribed ≡ ok []
unfolding view
fresh_lists = refl

pub fresh_room : HasSlot (view mock []).slots
unfolding view
fresh_room = tt

pub some_price : priced_msg.prices ≢ []
some_price = λ e. ground arith

pub stored_child : (view mock dealer_storage).address ≡ ok (2 ∷ [])
unfolding view
stored_child = refl

pub dealer_lists :
    (view mock dealer_storage).subscribed
    ≡ ok (record { address = 2 ∷ []; code_hash = child_snip721_code_hash } ∷ [])
unfolding view
dealer_lists = refl

pub met_linked : Linked mock terms_here met_pair
unfolding view
met_linked = record {
  raw_dealer = 1 ∷ [];
  dealer_form = mock_dealer;
  rep = record {
    raw_admin = 3 ∷ [];
    raw_child = 2 ∷ [];
    admin_form = mock_admin;
    child_form = mock_child;
    admin = refl;
    address = refl;
    code_hash = refl;
    prices = refl;
    metadata = refl;
  };
  dealer_subscribers = record { address = 2 ∷ []; code_hash = child_snip721_code_hash } ∷ [];
  dealer_lists = refl;
  knows_child = Knows-alone mock (2 ∷ []) child_snip721_code_hash;
  child_subscribers = record { address = 1 ∷ []; code_hash = "dealer_code_hash" } ∷ [];
  child_lists = refl;
  knows_dealer = Knows-alone mock (1 ∷ []) "dealer_code_hash";
}
