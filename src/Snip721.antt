-- ===== src/Snip721.antt =====
-- The messages of snip721_reference_impl that the contracts build. Types of its fields that the
-- contracts pass on unread are parameters.
use snip721_migratable.Base.{String, Bool, Option}

pub record Snip721Types : Type 1 where
  pub Metadata : Type 0
  pub RoyaltyInfo : Type 0
  pub SerialNumber : Type 0
  pub PostInitCallback : Type 0
  pub PostInitData : Type 0

pub record InstantiateConfig : Type 0 where
  pub public_token_supply : Option Bool
  pub public_owner : Option Bool
  pub enable_sealed_metadata : Option Bool
  pub unwrapped_metadata_is_private : Option Bool
  pub minter_may_update_metadata : Option Bool
  pub owner_may_update_metadata : Option Bool
  pub enable_burn : Option Bool

module _ (types : Snip721Types) where
  open types use {Metadata, RoyaltyInfo, SerialNumber, PostInitCallback, PostInitData}

  pub record Snip721InstantiateMsg : Type 0 where
    pub name : String
    pub symbol : String
    pub admin : Option String
    pub entropy : String
    pub royalty_info : Option RoyaltyInfo
    pub config : Option InstantiateConfig
    pub post_init_callback : Option PostInitCallback
    pub post_init_data : Option PostInitData

  pub record MintNft : Type 0 where
    pub token_id : Option String
    pub owner : Option String
    pub public_metadata : Option Metadata
    pub private_metadata : Option Metadata
    pub serial_number : Option SerialNumber
    pub royalty_info : Option RoyaltyInfo
    pub transferable : Option Bool
    pub memo : Option String
    pub padding : Option String

  -- `other` is any variant that the contracts do not name.
  pub data Snip721ExecuteMsg : Type 0 where
    mint_nft : MintNft → Snip721ExecuteMsg
    change_admin : (address : String) (padding : Option String) → Snip721ExecuteMsg
    other : String → Snip721ExecuteMsg
