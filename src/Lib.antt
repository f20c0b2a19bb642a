-- ===== src/Lib.antt =====
-- A local-first knowledge base. Each device holds a vault: files, a map from file ids to paths, a ledger of
-- deletions and a database of sync state. A server keeps a sequence of manifests, one for each revision.
-- A device pulls a manifest and converges to it, or commits its own files as the next one. This library
-- models packages/vault-core/src/vault_core, which decides what each of these steps writes, and the vaults
-- of the server, apps/backend/noteapp-server/sync_store.py.
--
-- The parts, with the file that models each:
--
-- * Models (models.py): a dataclass is a record, and `new_...` is its constructor call, with the checks of
--   `__post_init__`. Every function that rebuilds a record repeats those checks, as in the code. A field
--   that the checks hold to the non-negative integers is a number, and a field with a closed set of values
--   is an enumeration, so these two checks are types. `meta` is any JSON object.
-- * Operations.Edits, Operations.Conflicts (operations.py): `add_file`, `rename_file`, `mark_deleted`,
--   `register_conflict_copy`, `remove_conflict_copy`. `Operations.Reach.Edits` is a sequence of them.
-- * Convergence.Defs (convergence.py): `merge_manifest_tombstones`, `select_reclaimable_tombstones`,
--   `rebuild_filemap_from_manifest`, `converge_manifest_state`.
-- * Manifest (manifest.py): the canonical payload of a manifest and its two hashes.
-- * Recovery (recovery.py): the transitions of the sync state and of the deletions at a commit.
--   `Recovery.Coherence.Transitions` is a sequence of them.
-- * Store.Rows, Store.Transactions (sqlite_store.py): the rows of sync state, and the recoveries, each of
--   which rewrites its rows in one transaction.
-- * Pull.Plan, Pull.Apply (sync_plan.py, sync_reconcile.py, sync_apply.py): whether to pull, which blobs to
--   ask for, and what a pull writes. It runs Convergence, then Recovery, then Store.
-- * Commit.Confirmation, Commit.Recover (sync_commit.py, sync_apply.py): after an interruption, whether a
--   submitted commit reached the server, and the recovery from either answer, over Recovery and Store.
-- * Commit.Prepare (sync_commit.py): the journal and the lock that are written before a commit, and what
--   cleans them up when the submission fails. Commit.Finalize: the ledger and the state that are written
--   when the server has accepted it.
-- * Commit.Entries, Commit.Snapshot (sync_commit.py): the manifest of a commit, from the file map or from the
--   plan that freezes its files. Commit.Submit: the journal that is prepared and submitted with it.
--   Commit.Table, Commit.Network: the staged files, the check of the blobs with the server, what is to be
--   uploaded, and the request, which Server.Commits receives (Commit.Accepted).
-- * Server.Vault (sync_store.py): the state of the server. Server.Manifests: how it finalizes a manifest.
--   Server.Versions: the versions of a file. Server.Commits: `create_commit` and `resolve_commit_intent`.
--   Server.Collect: the garbage collection of deletions. Server.Devices: `ack_revisions`, `touch_device`,
--   `heartbeat_device` and `list_vault_devices`. Server.Queries: the other methods on a vault.
--   Server.Removal: `delete_device`, which runs the garbage collection in every vault.
--   Server.Chunks and Server.Ranges: the parts of a blob in an upload and in a download.
-- * Server.Log states what a vault promises: it is a log of manifests, numbered from 1. Server.Effects says
--   what each method does to the vault in those terms, Server.Steps makes the methods steps of the server's
--   state, and Server.History is about sequences of them. A device meets the server in a commit: the retry
--   after an interruption (Commit.Recover) asks the server for the commit by its id (Server.Once).
-- * Paths.Names (paths.py): the search for a name that is free in a directory. Paths.Staged (paths.py and
--   sync_commit.py): the staging files of an interrupted commit, moved aside. Commit.Restart
--   (sync_commit.py): the recovery at a restart that asks no server, over Store.Transactions and Paths.Staged.
-- * Base (shared helpers): lists, text, dicts, sorting, exceptions (Exec) and code that changes a state (State).
--
-- Conventions. An exception is `raise` with its kind, its message and the values that it quotes. What was
-- written before an exception stays written; `with connection:` is one step. A dict is a list of keys and
-- values with its insertion order, and a set is used only for membership or sorted. `sorted` is an
-- insertion sort by the code's key, which is stable as Python's is. Text is compared by code points. A
-- table is a dict by `vault_id`; a JSON column gives back what was put in. A file is what was last written
-- to it.
--
-- Parameters: `nfc` stands for `unicodedata.normalize("NFC", ...)` and `digest` for the SHA-256 of a
-- payload's canonical JSON text. Nothing is assumed of them but what a theorem states. In the server, `name`
-- stands for the digest that is the id of a version or of a chunk. A JSON object of the server's state is a
-- record with the keys that the code writes, so its checks for values of another JSON type are types. A
-- method that raises leaves the server's state as it was, as nothing is saved then.
--
-- Fuel: three loops run on fuel. `search_free` gets as many rounds as the directory has names, and each
-- round that fails uses up a name. `digits` of `n` gets `n + 1` rounds, and each divides the number by 10.
-- `chunk_loop` gets as many rounds as the blob has bytes, and each round cuts off one byte or more.
--
-- Not modelled: how a commit writes and removes its staging files (sync_commit.py), the messages and the
-- client (sync_api.py, sync_client.py, sync_http.py), the JSON text of the ledger and of the file map, the
-- search index (sqlite_store.py), which is SQL, and everything outside vault_core: clients/desktop,
-- packages/ai-core and the front ends. Of the server: accounts, tokens and sessions, the storage of blobs
-- and of the state, and the HTTP routes. In Server.Steps a call of such a method is the step `elsewhere`,
-- which leaves every vault as it is or writes an empty one that was not there.
pub mod Base
pub mod Models
pub mod Operations
pub mod Recovery
pub mod Convergence
pub mod Store
pub mod Manifest
pub mod Paths
pub mod Pull
pub mod Commit
pub mod Server
