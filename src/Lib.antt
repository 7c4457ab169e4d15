-- ===== src/Lib.antt =====
-- A verification library for tine: its remote cache, the local shim of remote_cache/ that stands
-- between Buck2 and a bucket which others can write to, the writer and the reader of its initramfs
-- archives, the choice of the kernel modules that go into one, and the order of an image's versions.
--
-- The parts and their files:
-- Base: names of the libraries and shared helpers. Base.Text is UTF-8 as Python's str.encode and
--   bytes.decode(errors="replace"), where a text is the list of its code points; Base.Struct is
--   the fields of Python's struct that the code uses; Base.Bits is about the native bit operations;
--   Base.Decimal is str and int of a number, and Base.Order the order of texts.
-- RemoteCache.Outcome and RemoteCache.Exec: what a Python function returns or raises, and methods
--   that change an object and may raise. RemoteCache.ReadAll is the loop that reads until no byte is
--   left, of wire.fields, wire.unpack_varints and bundle.unpack.
-- RemoteCache.Wire: remote_cache/wire.py. Varint is _varint, _write_varint and unpack_varints;
--   Fields is fields; Message is the class Message; Writer is the functions that write a field.
-- RemoteCache.Reapi: remote_cache/reapi.py. Digest, Result, Blobs and Stream hold the dataclasses
--   with their parse and to_bytes.
-- RemoteCache.Bundle: pack and unpack of remote_cache/bundle.py; Bundle.Name is bundle_name.
-- RemoteCache.Signing: remote_cache/signing.py. Envelope is is_sha256_hex, _signed, split and what
--   Signer.wrap stores; Authority is unwrap, key_for, check, verify and key_id; Signer is the class
--   Signer, with check_window and Authority.admit.
-- RemoteCache.Store: remote_cache/store.py. State is the tables of the index, the files and `held`;
--   Choose and Evict are _evict and _forget; Rows is _evict_rows; Filed and Blobs are the operations
--   on blobs; Results those on results and certificates; Start is _reconcile. The store uses the
--   envelope's test of a hash and reapi's Digest, and keeps the certificates that Authority asks for.
-- RemoteCache.Bucket: Reader.get, S3Writer.put and S3Writer.refresh of remote_cache/bucket.py.
-- RemoteCache.Shim: remote_cache/shim.py, the client of all of these. State is what a shim is set up
--   with and keeps; Pointer is ac_pack and ac_unpack; Local is the class Local with referenced; Lookup
--   is ActionCache.get with _trusted, _kept and _fetch; Proven is _proven; Publish is
--   ActionCache.update with _prepare and _publish; Storage is ContentAddressableStorage; Stream is
--   resource_digest and ByteStream; Idle.Steps is Activity and wait, with the time as a natural number,
--   and Idle is about when wait ends. The store, the reader and the authority meet in
--   Shim.State.host, which the authority is given.
-- Archive.Cpio: archive/cpio.py. The class Writer, with its file as the bytes written so far;
--   Cpio.Reader is read, over a source from `start` on; Reader.Members is what a Writer is given, and
--   the two meet in Reader.RoundTrip. Cpio.Extract is _relpath.
-- Image.Version: image/version.py. An index into a text is the rest of the text behind it; a step of
--   the loop decides or goes on. Chains and Keys are about single steps, Order about compare.
-- Kmod: kmod/kmod.py. Names is Python's sets and dictionaries of texts; Libkmod is what the class Kmod
--   reads of a module; Closure is Kmod.closure, with its locals as Tables; Fnmatch is Python's
--   fnmatchcase; Patterns is _compile, _matches, module_name, matchable and select; Links is _chase and
--   carry. select names the modules whose closure is taken, and carry takes what the closure found.
--
-- Bytes are lists of numbers, which a theorem bounds by 256 where it needs to. Numbers are natural:
-- the code makes no negative one, where `held` counts the blobs that are here; (-n) % align is
-- written out, and a negative value to write is left aside. A generator is the list of what it yields, or
-- the error that ends it. The loop of ReadAll has one round more than there are bytes, and each
-- round takes a byte at least, so it does not run out. The range of ByteStream.read has a round for
-- each byte, which is enough as a chunk is not empty, and the digits of a number n take no more than
-- n + 1 rounds. A round of compare takes a character of both texts, and compare has more rounds than
-- there are characters. A record of an archive takes a byte at least, and read has a round more than
-- there are bytes. The rounds of Kmod.closure are an argument, and those that are enough are the
-- names asked for with the requests of a finite index; _chase has _LINK_DEPTH, as the code does.
--
-- Parameters: sha256, the operations on keys and certificates (Crypto and Keys: the cryptography
-- package), the certificates remembered with the bucket and the clock (Host), for the store the clock
-- and the product with EVICTED_DOWN_TO (Platform), for the bucket urlopen and the clocks
-- (World), and whether a process is alive.
-- libkmod is the parameter `lookup`, from a name to what libkmod says of it; the symlinks of a tree
-- are the parameter `link`; the module files and what is built in are arguments of select.
-- The text of an error, which batch_update and batch_read answer with, is the parameter Setup.say.
--
-- Not modelled: other threads, and so KeyedLocks and the requests that run between two steps of
-- one; the store's lock file and its directories, so that a file is under its hash alone; the logs;
-- the gRPC wiring, serve and the command line of remote_cache/shim.py; of Reader.get a Content-
-- Length that is no number, an HTTPException and a body that ends before its declared length, and
-- of S3Writer.put the OSErrors that are no URLError, which are raised as one here; the headers that
-- sign a request to S3; the construction of Authority; a minus sign in the size of a resource name,
-- which int reads and Base.Decimal refuses; the spaces, signs, underscores and prefix that int
-- takes in a field of a cpio header, which the reader here refuses as bad_number; the rest of the
-- extraction and the packing of trees in archive/cpio.py; of kmod/kmod.py what lists directories,
-- the calls through ctypes, a `..` behind a root that is spelled //, firmware_files, entries,
-- manifest and initrd_modules; and the rest of the repository, which builds boxes, packages and
-- images.
pub mod Archive
pub mod Base
pub mod Image
pub mod Kmod
pub mod RemoteCache
