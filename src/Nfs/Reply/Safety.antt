-- ===== src/Nfs/Reply/Safety.antt =====
-- Replies: reading stays inside the buffer.
use nfstest.Xdr.Codec.{Codec, Fresh, unpack}
use nfstest.Xdr.Safety.{Safe, safe_rules}
use nfstest.Nfs.Reply.{Res, res_codec}

module _ {A : Type 0} ⦃c : Codec A⦄ ⦃f : Fresh A⦄ where
  pub Safe-res : ((old : A) → Safe (unpack old)) → (old : Res A) → Safe (unpack old)
  unfolding res_codec
  Safe-res k old = search (safe_rules, k)
