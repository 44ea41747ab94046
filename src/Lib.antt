-- ===== src/Lib.antt =====
-- The RPC and XDR core of an NFSv3 test suite: models of the code and proofs about them.
--
-- The program has two parts. simple_rpc is an RPC client: its RpcClient builds a call message,
-- sends it as a record over a TcpTransport, receives a record and parses the reply. nfs3_rpc_tests
-- holds the NFSv3 protocol: the class XdrBuffer packs and unpacks numbers, flags, strings and
-- opaque data, and every structure of the protocol writes and reads itself through it. A
-- procedure's arguments and reply are such structures; RPCEndpoint packs the arguments, has the
-- client make the call, and unpacks the reply, and NFS3TestClient has a method for each procedure.
--
-- Prelude: shared names, and Boolean tests and lists over the native numbers.
-- Xdr: nfs3_rpc_tests/include/nfs3/xdr_codec.hpp and detail/xdr_primitive.hpp beside it, and
--   nfs3_rpc_tests/src/xdr_codec.cpp. Word has swap_bytes32, host_to_network32 and their kin, Int
--   the casts of int32_t, Buffer every method `pack` and `unpack` of XdrBuffer. A method is a
--   function of the host's byte order and of the buffer, with an outcome: it returned, it threw, or
--   it read outside the buffer. Codec is the interface by which an object packs itself. Wire, Words,
--   Opaque and Optional prove what is on the wire, Safety that reading stays inside the buffer, and
--   Encoding states both for the methods.
-- XdrC: nfs3_rpc_tests_c/src/xdr_codec.c, the buffer of the suite in C. Order has its byte order,
--   Growth the buffer with its capacity and `ensure_write_capacity`, Codec the functions that pack
--   and unpack. A buffer has the bytes below `size` and how many its block has room for; the answers
--   of malloc and realloc are a sequence, and an access outside a block is an outcome. Capacity,
--   Packing, Reading, Unpacking and Buffers prove, Agree and Unpacking against Xdr.
-- NfsC: nfs3_rpc_tests_c/src/nfs3_xdr.c, as far as it concerns attributes, handles, and the
--   arguments of the procedures that have only a handle and numbers. Attributes and Handles have the
--   functions, over the records of Nfs, whose members are those of the structures in C; Packed,
--   Taken, Unpacked, Handled and Requests compare them with Nfs.
-- Nfs: nfs3_rpc_tests/include/nfs3/nfs3_types.hpp and nfs3_constants.hpp.
--   Attributes, SetAttributes, Lookup, Transfer, Create, MakeNode, Names, Directory, Volume and
--   FsInfo have the structures, each with its `serialize` and `deserialize` as a codec; Chain has
--   the linked entries of a directory, Reply the replies, which differ in their type names only,
--   and Procedure the 21 procedures that carry data. The child modules RoundTrip and Safety have
--   the proofs of each. `deserialize` takes the old object and gives the new one, since it leaves
--   some members as they were; an uninitialised member is zero.
-- Rpc: simple_rpc/include/nfstest/rpc_protocol.hpp, simple_rpc/src/rpc_transport.cpp and
--   rpc_client.cpp. Protocol has build_call, Reply has parse_reply, Transport has write_all,
--   read_all, send and recv, Client has call and raw_call, Exported the C interface to these. A
--   read past the end of a reply, which C++ leaves undefined, is an outcome of its own. The kernel
--   is a list of answers to the calls of read, write and poll, and two byte streams; a list that
--   ends is a call that never returns.
-- Endpoint: nfs3_rpc_tests/include/nfs3/rpc_endpoint.hpp and nfs3_rpc_tests/src/rpc_endpoint.cpp as
--   they are built without libtirpc. Its call packs the arguments by Xdr, makes the call by Rpc and
--   unpacks the reply.
-- NfsClient: nfs3_rpc_tests/include/nfs3/nfs3_client.hpp and nfs3_rpc_tests/src/nfs3_client.cpp, as
--   they are built without libtirpc. Each method fills in the arguments of its procedure and makes
--   the request, which checks the reply that the endpoint gives. Calls has a method with its
--   arguments as data, and the procedure and the bytes of it, and Requests the proofs.
-- Tirpc: nfs3_rpc_tests/src/nfs3_xdr.cpp, the second codec, over the XDR streams of libtirpc.
--   Stream has the operations of a stream (x_op), the outcome of a bool_t function, the interface to
--   libtirpc and the laws that are documented of it; Idioms the statements that all functions share;
--   Attributes, SetAttributes, Listing, Args, NameArgs, FileReplies, NameReplies and VolumeReplies
--   the functions. Layout describes what they write over XdrBuffer, Agree proves it, Ensures and
--   Limits have the limit on handles, and Memory is a libtirpc over streams in memory, which
--   fulfils the laws.
-- Mount: nfs3_rpc_tests/src/mount_client.cpp, as it is built without libtirpc. Mount and Exports
--   have xdr_unpack_fhstatus and xdr_unpack_exports, Client the methods of MountClient. Status,
--   Mounting and Listing have the proofs.
--
-- Fuel: unpack_entries reads linked entries on one unit of fuel more than the buffer has bytes,
--   which is enough, since each entry takes at least the four bytes of its flag; running out is an
--   outcome of its own. So the loops of xdr_unpack_exports. The host name of the credential is
--   written in at most as many rounds as it has characters. A listing is decoded over TI-RPC on a
--   unit of fuel for each entry and one more, which is a parameter: a stream may go on for ever.
--   The loop of ensure_write_capacity has 64 rounds, since a capacity doubles at most 63 times up to
--   2^63.
-- Bounds: words are numbers below 2^32 or 2^64, with the wrap-around written out where the code
--   casts or adds. Sums of size_t are below 2^64, as a vector holds fewer than 2^63 bytes.
--
-- Not modelled: the making of a connection, and the moves and the destruction of a client, also
--   from C; libtirpc itself, and the calls of the endpoint, the test client and the MOUNT client
--   through it; in the suite in C, the structures of nfs3_rpc_tests_c/src/nfs3_types.c and, but for
--   attributes, handles and eight arguments, their codecs in nfs3_xdr.c; tests and examples.
pub mod Prelude
pub mod Xdr
pub mod XdrC
pub mod NfsC
pub mod Nfs
pub mod Rpc
pub mod Endpoint
pub mod NfsClient
pub mod Mount
pub mod Tirpc
