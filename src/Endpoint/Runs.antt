-- ===== src/Endpoint/Runs.antt =====
-- The endpoint of nfs3_rpc_tests/include/nfs3/rpc_endpoint.hpp at concrete values.
use nfstest.Prelude.{ℕ, zero, suc, ◌≡◌, refl, true, List, [], ◌∷◌, some, arith, replicate}
use nfstest.Xdr.Word.{big, little, bytes_of32, host_to_network32, swap_bytes32}
use nfstest.Xdr.Buffer.{
  ok, empty_buffer, pure, ◌>>=◌, ◌>>◌, pack_u32, pack_bool, pack_bytes, pack_string, insert,
  native_endian, padding_of, pad_to_4_bytes,
}
use nfstest.Xdr.Codec.{fresh}
use nfstest.Rpc.Protocol.{ok as status_ok}
use nfstest.Rpc.Call.{call_message}
use nfstest.Rpc.Parse.{accepted_reply}
use nfstest.Rpc.Transport.{Response, moved, interrupted, would_block}
use nfstest.Rpc.Transport.Progress.{Lively}
use nfstest.Rpc.Transport.Sending.{record_of}
use nfstest.Rpc.Transport.Record.{socket_of}
use nfstest.Nfs.Reply.{res_codec, res_fresh}
use nfstest.Nfs.Reply.RoundTrip.{ResFits}
use nfstest.Nfs.Attributes.{nfs_fh3_codec, nfs_fh3_fresh, post_op_attr_codec, post_op_attr_fresh}
use nfstest.Nfs.Lookup.{
  Readlink3Args, readlink3_args_codec, readlink3_args_fresh, readlink3_resok_codec,
}
use nfstest.Nfs.Procedure.{readlink, Reply, args_codec, reply_codec, proc_num}
use nfstest.Nfs.Procedure.RoundTrip.{ResokFits}
use nfstest.Endpoint.{RpcError, RpcEndpoint, Expected, value, done, call, on_status}
use nfstest.Endpoint.Decode.{on_status-done}
use nfstest.Endpoint.EndToEnd.{after_call, endpoint_call_done}

abbrev pub link : Readlink3Args
link = record { symlink = record { data_bytes = 1 ∷ 2 ∷ 3 ∷ [] } }

abbrev pub target : Reply readlink
target = record {
  status = 0;
  resok = some (record { symlink_attributes = fresh; data_bytes = b'a' ∷ [] });
}

abbrev pub request : List ℕ
request = 0 ∷ 0 ∷ 0 ∷ 3 ∷ 1 ∷ 2 ∷ 3 ∷ 0 ∷ []

abbrev pub body : List ℕ
body = 0 ∷ 0 ∷ 0 ∷ 0 ∷ 0 ∷ 0 ∷ 0 ∷ 0 ∷ 0 ∷ 0 ∷ 0 ∷ 1 ∷ b'a' ∷ 0 ∷ 0 ∷ 0 ∷ []

pub link_packed :
    (args_codec readlink).serialize link little empty_buffer
    ≡ ok tt (record { buffer = request; pos = 0 })
unfolding readlink3_args_codec nfs_fh3_codec pack_bytes pack_u32 insert native_endian padding_of
    ◌>>=◌ ◌>>◌ pure bytes_of32 host_to_network32 swap_bytes32
link_packed = refl

pub target_packed :
    (reply_codec readlink).serialize target big empty_buffer
    ≡ ok tt (record { buffer = body; pos = 0 })
unfolding readlink3_resok_codec res_codec post_op_attr_codec pack_string pack_bool pad_to_4_bytes
    pack_u32 insert native_endian padding_of ◌>>=◌ ◌>>◌ pure bytes_of32 host_to_network32
    swap_bytes32
target_packed = refl

pub target_fits : ResFits (ResokFits readlink) fresh target
target_fits =
    (omega arith, (_, refl, record { symlink_attributes = refl; data_bytes = omega arith }))

-- The kernel is interrupted once, would block once, and moves a byte at a time.
abbrev pub answers : List Response
answers = interrupted ∷ would_block true ∷ replicate 300 (moved 1)

pub replicate-Lively : (n : ℕ) → Lively (replicate n (moved 1))
replicate-Lively zero = tt
replicate-Lively (suc n) = (tt, replicate-Lively n)

abbrev pub endpoint : RpcEndpoint
endpoint = record {
  has_impl = true;
  rpc_client = record {
    transport = record {
      is_connected = true;
      socket = socket_of [] (record_of (accepted_reply 1 0 [] 0 body)) answers;
    };
    xid = 1;
  };
}

endpoint_call_done_example :
    (later : List Response) × (call ⦃a = args_codec readlink⦄ ⦃c = reply_codec readlink⦄
        ⦃f = res_fresh⦄ little endpoint 5 link
      ≡ done (value target) (
          after_call endpoint (socket_of (record_of (call_message 1 100003 3 5 request)) [] later)))
unfolding padding_of proc_num
endpoint_call_done_example =
    endpoint_call_done readlink big little endpoint link target request body [] 0 [] refl refl
      link_packed target_packed target_fits (omega arith) (omega arith) (omega arith) (omega arith)
      (omega arith) refl (tt, (tt, replicate-Lively 300)) (omega arith)

on_status-done_example :
    (r : Expected (Reply readlink) RpcError) × (on_status ⦃c = reply_codec readlink⦄ ⦃f = res_fresh⦄
        little endpoint
        (status_ok, 9 ∷ [])
      ≡ done r endpoint)
on_status-done_example = on_status-done readlink little endpoint status_ok (9 ∷ [])
