-- ===== src/Lib.antt =====
-- Verification of the GraveYield protocol: the two on-chain programs, programs/grave-vault and
-- programs/grave-scanner, and the off-chain crate snapshotter.
--
-- The scanner decides which AMM pools are derelict: a first phase writes an anchor, a second phase
-- at least two epochs later a certificate. The vault settles a certified pool once: it withdraws
-- the salvor's liquidity from the AMM, converts the memecoin on Jupiter, unwraps the WSOL, splits
-- the proceeds between salvor, LP holders and treasury, and seals the Merkle root of the LP
-- holders' snapshot. Holders then claim their shares with proofs against that root. The
-- snapshotter builds the root and the proofs. The programs meet in the certificate, which the vault
-- reads, and in the leaf and pair hashing, which the vault and the snapshotter both have.
--
-- Files and what they model:
--   Prelude: Boolean tests, words, i64 as integers, bytes, results, tables of accounts.
--   Vault/Errors, Constants, State: programs/grave-vault/src/{errors,constants}.rs and state/.
--   Vault/Config: instructions/{initialize,update_protocol_config,emergency_pause}.rs.
--   Vault/Merkle: merkle.rs. Vault/Claim: instructions/claim_lp_proceeds.rs.
--   Vault/Cpi: cpi/{mod,raydium_v4,jupiter}.rs. Vault/Proceeds: the arithmetic of
--     instructions/salvage_pool.rs. Vault/Salvage: its accounts, checks, calls and handler.
--   Vault/Dust: instructions/sweep_dust.rs. Vault/Lifecycle: lib.rs, the instructions as steps.
--   Scanner/Errors, Constants, State: programs/grave-scanner/src/{errors,constants}.rs and state/.
--   Scanner/Criteria: criteria.rs. Scanner/Config: the three instructions on the config.
--   Scanner/Attestation: attestation.rs, the instruction offsets of the ed25519 precompile, with the
--     child modules SlotHashes (the search in the sysvar), LastSwap and LaunchPrices (the messages;
--     the second also instructions/record_launch_price.rs).
--   Scanner/Adapters: adapters/, with RaydiumV4, Dispatch (mod.rs) and Locker (locker.rs).
--   Scanner/Pools: the instructions of both phases, of invalidation and of the sweep, with the
--     evidence that a phase reads through the attestation and the adapters.
--   Snapshotter/Model, Tree: snapshotter/src/{error,model,tree}.rs.
--   Snapshotter/Balances, Builder: snapshotter/src/{builder,source}.rs, on owner-to-balance maps.
--   Snapshotter/Locked: snapshotter/src/locked.rs. Snapshotter/Artifact: snapshotter/src/artifact.rs.
--   The modules Fixtures and those whose names end in Tests or Witnesses run the code on small
--   inputs. The other child modules hold the proofs about their parents.
--
-- How the code is modelled. Keys and digests of 32 bytes are their big-endian values, so their
-- order is the order of numbers. Unsigned words are natural numbers with the checked, saturating
-- and truncating operations written out; i64 is an integer with its checked addition. A handler is
-- a function from the state to a result: a failure carries the program's error or one of the
-- framework's, and a failed transaction leaves the state as it was. Accounts at derived addresses
-- are tables by what derives them (pool, or pool and holder); bumps and derived addresses are
-- inputs. Lamports of the two native-SOL accounts of a pool are kept by pool.
--
-- Account data and instruction data are lists of bytes, which the parsers read by offset. A sum
-- that leaves its word where the source has a plain + gives the result of a panic, as the release
-- profile has overflow checks; the debug assertions are left out, as the profile leaves them out.
--
-- Code outside the repository is a parameter: the hash of solana_sha256_hasher and sha2, the AMM,
-- Jupiter and the token program as what a call does to the token balances (it may fail), the
-- closing of the WSOL account, the derivation of associated token accounts and of program addresses,
-- the id of the token program, and the loaders of the instructions sysvar. The soundness of Merkle proofs assumes of the hash
-- that its digests have 32 bytes, and names the two clashing strings where there is a clash. What an
-- attestation is worth rests on one hypothesis about the runtime: the ed25519 precompile ran before
-- it, on the signature, the key and the message that its offsets name, in a transaction of fewer
-- than 65,535 instructions. The code does not compare the message in the params with the bytes that
-- the signature covers; where the program is called by another, they may differ, and the statements
-- name that case.
--
-- Fuel: only the loop of the tree builder takes it, with the number of leaves, which is proved
-- enough. The other loops are structural.
--
-- Not modelled: reserved bytes, events and logs, the rent that the framework's init and close
-- constraints move, except the holder's for a claim record in `claim_with_rent`, which runs of
-- claims use and single steps do not, the JSON, hex and base58 codecs of the artifact, the RPC
-- client and the command line of the snapshotter, and two maps over functions that are modelled,
-- the builder's list of all proofs and the in-memory locks read from raw accounts. The TypeScript
-- packages and the scripts are outside the on-chain logic.
pub mod Prelude
pub mod Scanner
pub mod Vault
pub mod Snapshotter
