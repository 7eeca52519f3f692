-- ===== src/Lib.antt =====
-- The filter of JaroMail: how a mail policy is read and how a message is classified by it. The
-- program is a set of C files under src/filter; a policy is read from its sources (policy.c), its
-- rules are numbered and identified (sha256.c), an index of them is made, and a message gets the
-- first rule that it matches (classify.c).
--
-- Base: lists, strings of bytes and strcmp. A string of the program is the list of its bytes
--   without the closing NUL; a byte is a number.
-- Result: the error codes and the results of the functions that return a status. The text of an
--   error (`detail`) is left out.
-- Sorter: what qsort promises, as a record that every client takes as an argument, and insertion
--   sort, which keeps the promise.
-- Sha256: src/filter/sha256.c (rotate, transform, jf_sha256_init, jf_sha256_update, jf_sha256_hex).
-- Text: the checks of src/filter/policy.c on bytes (jf_valid_utf8, encode, alnum_ascii, fold,
--   jf_valid_domain, jf_valid_mailbox, jf_normalize_mailbox).
-- Policy: src/filter/policy.c. Rules has the structs, Lex the lexer (hex4, lex, jf_policy_tokens),
--   Parse the lines of the sources (destination, append, parse_line), Compare the orders of qsort,
--   Resolve identify and resolve, and Build jf_policy_parse. Builtins follows the entries from
--   the lines of the sources to the index.
-- Classify: src/filter/classify.c. Index has compare_index, compare_lookup and lookup, Build has
--   jf_policy_build_index, Text has validate_text and raw_match, Message has jf_policy_classify.
-- Product: src/filter/product_util.c (Buffer), regex_subset.c (Regex) and emit.c (Quote, Emit).
-- Profile: src/filter/profile.c, the profile of an export and the mailbox of a rule.
-- Headers: src/filter/headers.c, the header fields that become the message that is classified.
-- Cache: src/filter/cache.c (Encode, Fields, Build, Dependencies; Validate has jf_cache_validate and
--   jf_cache_policy, record by record), and jf_policy_restore of policy.c (Restore).
-- Contact: src/filter/contact.c, jf_contact_add: the reader of the address book, and the record that it
--   appends. The answers of the system are an argument. Record, Added and Again read an appended
--   record line by line, Twice and LongName make a second call.
-- Pool: src/filter/pool.c, the worker threads and the coordinator as a step relation; a step is a
--   section that holds the mutex, and a thread in the wait for a condition variable takes none until it is
--   woken. Ordered, Workers and Control follow the counters over the steps, Crew,
--   Progress and Finish the steps of a window and of the joins.
-- Import: src/filter/import.c, the tokenizer of old scripts (next, take), the
--   string lists (strings) and quote.
--
-- Bounds. The loops of C are recursion on the list they read, or on fuel: the bisection has the
-- length of the index, the lexer the length of the line, the loops over a source and a profile
-- the length of the content (each round takes a byte at least), the growth of a buffer the size
-- that is needed (each round adds to the capacity), and the printing of a number the number plus
-- one; a list of strings the bytes that are left plus one. A 32-bit word is a number below 2 ^ 32 with the remainder written out. Pointers into the
-- array of entries are the position with the entry; the null pointer stands below all others, as
-- `p->spam<best` takes it.
--
-- Left out: failing allocations, null arguments, the counters of jf_match_stats, the text of an
-- error, and the release of memory. The regex engine, the locale, qsort, the digest of the regex
-- qualification and the strings of the regex profile (a generated header) and the parser of address lists (src/rfc822.c) are parameters.
-- Of the import of old scripts, the grammar of the rules and the merge into a policy are not modelled. The storage,
-- the snapshots, the generations and the filter programs of src/filter, the lock and address tools of src, and the scripts
-- are not modelled.
pub mod Base
pub mod Result
pub mod Sorter
pub mod Sha256
pub mod Text
pub mod Policy
pub mod Classify
pub mod Product
pub mod Profile
pub mod Headers
pub mod Cache
pub mod Contact
pub mod Pool
pub mod Import
