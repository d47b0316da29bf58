-- ===== src/BlockHeader.antt =====
-- Block headers, as src/sdk/WalletServices.interfaces.ts declares them. Hashes are texts.
use Prim.Native.String.{String}
use wallet_toolbox_rocksdb.Base.{ℕ}

pub record BlockHeader : Type 0 where
  pub version : ℕ
  pub previous_hash : String
  pub merkle_root : String
  pub time : ℕ
  pub bits : ℕ
  pub nonce : ℕ
  pub height : ℕ
  pub hash : String
