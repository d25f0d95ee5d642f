-- ===== src/Lib.antt =====
-- local-kms, a local version of the AWS Key Management Service: its operations on keys, aliases,
-- tags and grants, as functions on the state of the store.
--
-- The program. A request names an operation; src/server.go decodes it and calls the handler of that
-- name in src/handler/. A handler checks its fields, looks its key up (getKey and getUsableKey of
-- helpers.go), calls the key's own methods in src/cmk/, and writes the result through src/data/,
-- which keeps everything in one goleveldb store: keys and aliases under their ARNs, tags under
-- <key ARN>/tag/<name>, grants under grant/<id>. To load a key can change the store, since a rotation
-- that is due, a deletion date that is past and imported material that has expired are acted on then.
--
-- The files, and what they model:
--   Service/Ciphertext  src/service/ciphertext.go and the packing of src/cmk/aes_encryption.go
--   Service/Safeconv    src/service/safeconv.go
--   Config, Clock       src/config/config.go; the parts of Go's package time that are used
--   Cmk                 src/cmk/key.go: the records of keys
--   Cmk/Aes, Cmk/Hmac   src/cmk/aes_key.go, src/cmk/hmac_key.go
--   Cmk/Context, Cmk/Encryption, Cmk/Rsa
--                       src/cmk/aes_encryption.go, src/cmk/rsa_encryption.go
--   Cmk/Signing         signatures: src/cmk/hash.go, and Sign and Verify of ecc_key.go and rsa_key.go
--   Cmk/Algorithms      the names of signing algorithms in src/cmk/key.go
--   Cmk/Yaml            the methods UnmarshalYAML of the four kinds of keys
--   Cmk/Generate        NewEccKey and NewRsaKey of src/cmk/ecc_key.go and src/cmk/rsa_key.go
--   Data/Backend        what src/data/ takes from goleveldb and encoding/json
--   Data/Database, Data/DiskSpace
--                       database.go, data_validation.go, disk_space.go and disk_space_unix.go
--   Data/Keys           database_key.go; Data/Aliases, Data/Tags, Data/Grants: database_alias.go,
--                       database_tag.go, database_grant.go; Data/Listing: the loop they share
--   Data/Recovery       data_recovery.go
--   Handler/Responses, Handler/Lookup, Handler/Listing
--                       request_handler.go, helpers.go, and what the listing handlers share
--   Handler/Keys, KeyState, Rotation, Import, Tags, Aliases, Grants, Crypto, Mac, Signing, DataKeys
--                       the handlers: each is one function, named like the Go method
--   Handler/KeyPairs    the pairs that generate_data_key_pair.go makes
--   Handler/Operations, Handler/Session
--                       the 42 operations by their names, the request of each, and sequences of them
--   Handler/Entries     grant_helpers.go: grants as they are listed
--   Handler/Keeping     what the handlers that save no key leave of the keys
--   Server, Server/Calls
--                       src/server.go: which handler answers an HTTP request, how it is called, and the
--                       server from its start
--   Seed, Seed/Reading  src/seed.go: what it reads, and what it adds to the store
--   Result, Exec        Go's ways to end a call, and calls that change the state; Exec/Hoare and
--                       Exec/Preserves: what a call keeps of the state and promises of its result
--   Tests               a store in memory, toy ciphers, and every result at a concrete input
-- Below a module stand the files of its proofs, named for what they prove.
--
-- Values. A byte string and a Go string are lists of numbers (Text). uint8, uint32 and uint64 sums
-- that can wrap are written with the remainder. int64 and int32 fields of requests are ℤ. A pointer
-- that may be nil is an Option. Times are whole nanoseconds (the source keeps some as float64 seconds,
-- whose rounding is left out), 0 or `none` where no time is set; the calendar is UTC.
--
-- A request. A handler begins behind the decoding of the request's JSON and ends before the encoding
-- of the reply, which Server/Calls puts around it: it returns the part of the reply that it computes,
-- or the name of an exception without its message, or panics; logging is left out. During one request
-- the clock is read once (Env.now), and the disk has the same free space. Random bytes are Env.random
-- with the owner and a number for the place in the code that draws them.
--
-- Parameters. Backend is goleveldb with the JSON of the records: its laws are that a read gives the
-- last write, and that a record that was encoded decodes to itself. A read of one entry fails only when
-- there is no such entry, while writes, deletions and iterators can fail. Aead (AES-GCM), Oaep, Wrapping,
-- Generators, Crypto (hashes and signatures) and a keyed hash stand for Go's crypto packages; the laws
-- are that a text that was sealed or encrypted opens again, that what was signed verifies, and the
-- lengths of digests. Encodings and Parsers are the encodings of keys, and a SeedFile is a YAML document
-- as the library yaml takes it apart; they have no laws. Json decodes bodies and writes replies,
-- and has none either.
--
-- Bounds. All loops are structural recursion on a list, the pages of a listing on the rest of the
-- iterator. Only Handler/Listing/Walk, a client that follows the markers of pages, takes fuel, and one
-- more than the number of results is enough. Keys of 32 bytes are texts, whose length the program fixes
-- where it makes or imports them.
--
-- Not modelled: the key encodings of src/x509/ (a copy of parts of Go's library), the HTTP listener,
-- logging and the command line tools, which are input and output.
pub mod Prelude
pub mod Result
pub mod Exec
pub mod Server
pub mod Service
pub mod Config
pub mod Clock
pub mod Cmk
pub mod Data
pub mod Handler
pub mod Seed
pub mod Tests
