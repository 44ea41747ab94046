-- ===== src/Mount/Listing.antt =====
-- `list_exports` of nfs3_rpc_tests/src/mount_client.cpp, from the reply of RFC 1813 to its result.
use nfstest.Prelude.{ℕ, ◌≡◌, sym, ap, ◌∙◌, true, List, [], ◌∷◌, length}
use nfstest.Xdr.Word.{Endianness}
use nfstest.Xdr.Buffer.{XdrError}
use nfstest.Xdr.Opaque.{IsShort}
use nfstest.Rpc.Protocol.{ok as status_ok}
use nfstest.Rpc.Transport.{Socket, Io, returned}
use nfstest.Rpc.Client.{Called, call as rpc_call}
use nfstest.Endpoint.{value}
use nfstest.Endpoint.EndToEnd.{if_connected}
use mathlib.Core.Path.{subst}
use nfstest.Mount.Exports.Reading.{
  Export, rfc_exports, IsPath, no_exports, one_export, Reads-whole, second-Throws,
}
use nfstest.Mount.Client.{
  MountClient, client_is_connected, Ended, done, raised, list_exports, on_exports, after_rpc,
}

-- What the server exports to everyone: no group is named for the first export, whose path is below
-- 2^32 bytes, and a second one has a path.
abbrev pub IsExported : ℕ → List Export → Type 0
IsExported size [] = Unit {0}
IsExported size (x ∷ []) = (x.groups ≡ []) × IsShort x.dir
IsExported size (x ∷ y ∷ xs) = (x.groups ≡ []) × IsShort x.dir × IsPath size y.dir

-- The paths, if there are fewer than two, and an exception otherwise.
abbrev pub Listed : MountClient → List Export → Ended (List (List ℕ)) → Type 0
Listed c [] result = result ≡ done (value []) c
Listed c (x ∷ []) result = result ≡ done (value (x.dir ∷ [])) c
Listed c (x ∷ y ∷ xs) result = (error : XdrError) × (result ≡ raised error)

abbrev pub after_call : MountClient → ℕ → Socket → MountClient
after_call c next_xid s = record {
  rpc_client = record { transport = record c.rpc_client.transport { socket = s }; xid = next_xid };
}

module _ (e : Endianness) (c : MountClient) where
  -- What `list_exports` makes of the bytes of a reply.
  exports_Listed :
      (xs : List Export)
      → IsExported (length (rfc_exports xs)) xs
      → Listed c xs (on_exports e c (status_ok, rfc_exports xs))
  exports_Listed [] h = let (b, read) = Reads-whole (rfc_exports []) [] e no_exports in rw read
  exports_Listed (x ∷ []) (none, short) =
      let (b, read) = Reads-whole _ _ e (λ fuel. one_export fuel x none short) in rw read
  exports_Listed (x ∷ y ∷ xs) (none, short, path) =
      let (error, b, throws) = second-Throws e x y xs none short path in (error, rw throws)

module _ (e : Endianness) (c : MountClient) where
  -- The list of exports that RFC 1813 states is the reply of a call that succeeds over a connected
  -- client, and names no group for the first: `list_exports` gives the path if there is one export,
  -- and nothing if there is none; but where there is a second one, an exception leaves it, if its
  -- path is not empty and the first four characters of it, padded with zeros, are as a number above
  -- the size of the reply. They are if the first is a slash and the reply is below 788529152 bytes.
  -- Paths are below 2^32 bytes.
  pub list_exports_lem :
      (xs : List Export) (next_xid : ℕ) (s : Socket)
      → c.rpc_client.transport.is_connected ≡ true
      → rpc_call e c.rpc_client 100005 3 5 []
        ≡ returned (record { result = (status_ok, rfc_exports xs); next_xid = next_xid }) s
      → IsExported (length (rfc_exports xs)) xs
      → Listed (after_call c next_xid s) xs (list_exports e c)
  unfolding list_exports client_is_connected
  list_exports_lem xs next_xid s connected called h =
      let io = λ (r : Io Called). after_rpc c r (on_exports e) in
      subst (Listed (after_call c next_xid s) xs)
        (sym (if_connected _ _ _ connected ∙ ap io called))
        (exports_Listed e (after_call c next_xid s) xs h)
