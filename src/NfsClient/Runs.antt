-- ===== src/NfsClient/Runs.antt =====
-- The methods of class NFS3TestClient (nfs3_rpc_tests/src/nfs3_client.cpp) at concrete values.
use nfstest.Prelude.{◌≡◌, refl, List, [], some, arith}
use nfstest.Xdr.Word.{little, big}
use nfstest.Xdr.Buffer.{padding_of}
use nfstest.Rpc.Call.{call_message}
use nfstest.Rpc.Transport.{Response}
use nfstest.Rpc.Transport.Sending.{record_of}
use nfstest.Rpc.Transport.Record.{socket_of}
use nfstest.Nfs.Lookup.{Readlink3Resok, readlink3_args_codec}
use nfstest.Endpoint.{Expected, value, done}
use nfstest.Endpoint.EndToEnd.{after_call}
use nfstest.Endpoint.Runs.{
  link, target, request, body, endpoint, link_packed, target_packed, target_fits, replicate-Lively,
}
use nfstest.NfsClient.{Nfs3Error, readlink}
use nfstest.NfsClient.Calls.{readlink_call}
use nfstest.NfsClient.Requests.{method_done}

-- READLINK, whose reply carries the target of the link.
method_done_example :
    (later : List Response) × (told : Expected Readlink3Resok Nfs3Error) × (readlink little endpoint
        link.symlink
      ≡ done told (
          after_call endpoint (socket_of (record_of (call_message 1 100003 3 5 request)) [] later)))
    × ((a : Readlink3Resok) × (target.resok ≡ some a) × (told ≡ value a))
unfolding padding_of readlink3_args_codec readlink
method_done_example =
    method_done (readlink_call link.symlink) big little endpoint target request body [] 0 [] refl
      refl link_packed target_packed target_fits (omega arith) (omega arith) (omega arith)
      (omega arith) (omega arith) refl (tt, (tt, replicate-Lively 300)) (omega arith)
