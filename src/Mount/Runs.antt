-- ===== src/Mount/Runs.antt =====
-- The replies of MNT and EXPORT (nfs3_rpc_tests/src/mount_client.cpp) at concrete values.
use nfstest.Prelude.{ℕ, zero, suc, ◌≡◌, refl, true, List, [], ◌∷◌, ◌++◌, arith, replicate}
use nfstest.Xdr.Word.{little, big, network_bytes32}
use nfstest.Xdr.Opaque.{network_opaque}
use nfstest.Xdr.Int.{ℤ, pos}
use nfstest.Xdr.Buffer.{XdrBuffer, XdrError, ok, padding_of}
use nfstest.Xdr.Wire.{between}
use nfstest.Xdr.Safety.{Sound}
use nfstest.Endpoint.{unexpected}
use nfstest.Mount.{xdr_unpack_fhstatus}
use nfstest.Rpc.Protocol.{ok as status_ok}
use nfstest.Rpc.Call.{call_message}
use nfstest.Rpc.Parse.{accepted_reply}
use nfstest.Rpc.Transport.{Response, moved, returned}
use nfstest.Rpc.Transport.Progress.{Lively}
use nfstest.Rpc.Transport.Sending.{record_of}
use nfstest.Rpc.Transport.Record.{socket_of}
use nfstest.Rpc.Client.{call as rpc_call}
use nfstest.Rpc.Client.Call.{call_done}
use nfstest.Mount.Exports.{xdr_unpack_exports}
use nfstest.Mount.Exports.Safety.{mount_replies-Sound}
use nfstest.Mount.Exports.Reading.{Export, rfc_exports}
use nfstest.Mount.Client.{MountClient, done, raised, mnt, list_exports}
use nfstest.Mount.Listing.{after_call, list_exports_lem}
use nfstest.Mount.Status.{flavor_words, AllI32, mountres_ok, mountres_upto, xdr_unpack_fhstatus_lem}
use nfstest.Mount.Mounting.{refused, mnt_lem}

-- A handle of 5 bytes, for more flavors than are read.
abbrev flavors : List ℤ
flavors = replicate 11 (pos 1)

all_ones : (n : ℕ) → AllI32 (replicate n (pos 1))
all_ones zero = tt
all_ones (suc n) = (omega arith, all_ones n)

xdr_unpack_fhstatus_lem_example :
    xdr_unpack_fhstatus little
      (between [] (mountres_ok (1 ∷ 2 ∷ 3 ∷ 4 ∷ 5 ∷ []) flavors ++ (7 ∷ [])))
    ≡ ok
        (record {
          status = 0;
          fhandle = 1 ∷ 2 ∷ 3 ∷ 4 ∷ 5 ∷ [];
          auth_flavors = replicate 10 (pos 1);
        })
        (between
          ([] ++ mountres_upto (1 ∷ 2 ∷ 3 ∷ 4 ∷ 5 ∷ []) 11 (replicate 10 (pos 1)))
          (flavor_words (pos 1 ∷ []) ++ (7 ∷ [])))
xdr_unpack_fhstatus_lem_example =
    xdr_unpack_fhstatus_lem little [] (7 ∷ []) (1 ∷ 2 ∷ 3 ∷ 4 ∷ 5 ∷ []) flavors (omega arith)
      (all_ones 11) (omega arith)

-- A reply that ends within the length of its handle.
abbrev cut_reply : XdrBuffer
cut_reply = record { buffer = 0 ∷ 0 ∷ 0 ∷ 0 ∷ 0 ∷ 0 ∷ []; pos = 0 }

-- A server that exports /srv and / to everyone, over a connection that it answers on at once.
abbrev exports : List Export
exports =
    record { dir = b'/' ∷ b's' ∷ b'r' ∷ b'v' ∷ []; groups = [] }
    ∷ record { dir = b'/' ∷ []; groups = [] }
    ∷ []

abbrev answer : List ℕ
answer = accepted_reply 6 0 [] 0 (rfc_exports exports)

abbrev mount_client : MountClient
mount_client = record {
  rpc_client = record {
    transport = record {
      is_connected = true;
      socket = record {
        sent = [];
        incoming = record_of answer;
        responses = replicate 400 (moved 1);
      };
    };
    xid = 6;
  };
}

replicate-Lively : (n : ℕ) → Lively (replicate n (moved 1))
replicate-Lively zero = tt
replicate-Lively (suc n) = (tt, replicate-Lively n)

called :
    (later : List Response) × (rpc_call little mount_client.rpc_client 100005 3 5 []
      ≡ returned
          (record { result = (status_ok, rfc_exports exports); next_xid = 7 })
          (socket_of ([] ++ record_of (call_message 6 100005 3 5 [])) [] later))
unfolding padding_of
called =
    call_done little mount_client.rpc_client 100005 3 5 [] 0 [] 0 (rfc_exports exports) [] refl
      (omega arith) (omega arith) (omega arith) (omega arith) (omega arith) (omega arith) refl
      (replicate-Lively 400) (omega arith)

list_exports_lem_example : (error : XdrError) × (list_exports little mount_client ≡ raised error)
unfolding padding_of
list_exports_lem_example =
    list_exports_lem little mount_client exports 7
      (socket_of ([] ++ record_of (call_message 6 100005 3 5 [])) [] called.0) refl called.1
      (
        refl,
        omega arith,
        (omega arith, omega arith, 0x2f00_0000, [], refl, omega arith, omega arith),
      )

-- A server that does not support MNT, MNT3ERR_NOTSUPP, answers for the path /a.
abbrev path : List ℕ
path = b'/' ∷ b'a' ∷ []

abbrev no_support : MountClient
no_support = record {
  rpc_client = record {
    transport = record {
      is_connected = true;
      socket = record {
        sent = [];
        incoming = record_of (accepted_reply 6 0 [] 0 (network_bytes32 10004));
        responses = replicate 400 (moved 1);
      };
    };
    xid = 6;
  };
}

abbrev mnt_sent : List ℕ
mnt_sent = record_of (call_message 6 100005 3 1 (network_opaque path))

mnt_called :
    (later : List Response) × (rpc_call little no_support.rpc_client 100005 3 1
        (network_opaque path)
      ≡ returned
          (record { result = (status_ok, network_bytes32 10004); next_xid = 7 })
          (socket_of ([] ++ mnt_sent) [] later))
unfolding padding_of
mnt_called =
    call_done little no_support.rpc_client 100005 3 1 (network_opaque path) 0 [] 0
      (network_bytes32 10004) [] refl (omega arith) (omega arith) (omega arith) (omega arith)
      (omega arith) (omega arith) refl (replicate-Lively 400) (omega arith)

mnt_lem_example :
    mnt little no_support path
    ≡ done (unexpected 1) (after_call no_support 7 (socket_of ([] ++ mnt_sent) [] mnt_called.0))
mnt_lem_example =
    mnt_lem little no_support (refused 10004) path 7 (socket_of ([] ++ mnt_sent) [] mnt_called.0)
      refl (omega arith) mnt_called.1 (omega arith, omega arith)

mount_replies-Sound_example :
    Sound cut_reply (xdr_unpack_fhstatus big cut_reply)
    × Sound cut_reply (xdr_unpack_exports big cut_reply)
mount_replies-Sound_example = mount_replies-Sound big cut_reply (omega arith)
