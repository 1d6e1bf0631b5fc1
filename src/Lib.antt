-- ===== src/Lib.antt =====
-- aiodynamo is an asynchronous DynamoDB client. A caller builds expressions (conditions, updates,
-- projections, key conditions) from fields and values; the client encodes them into the text of a
-- request with placeholders for names and values, sends the request with retries, pages through the
-- results, and turns DynamoDB's tagged values back into Python values. Credentials come from a chain
-- of providers.
--
-- The files and the code they are about:
--   Prelude, Prelude/*       shared: tests, lists, decimal texts, dicts, str.replace
--   Errors                   src/aiodynamo/errors.py: the exceptions, ERRORS, exception_from_response;
--                            Errors/Codes is about the code in an error's type
--   Values                   src/aiodynamo/utils.py: low_level_serialize, deserialize, py2dy, dy2py;
--                            Values/Base64 is base64 in its standard form
--   Expressions/Parameters   src/aiodynamo/expressions.py: Parameters; Placeholders is `_encode`, and
--                            Placeholders/Invariant its invariant; Placeholders/Entries is about the
--                            entries that it adds
--   Expressions/Fields, Conditions, Updates, Keys
--                            src/aiodynamo/expressions.py: the expression classes and their `encode`
--   Expressions/Meaning      what a text with placeholders stands for, written down without any
--                            placeholders, and each `encode` against it
--   Expressions/Usage        which placeholders each `encode` enters, against those in its text
--   Expressions/Debug        src/aiodynamo/utils.py: deparametetrize; expressions.py: the debug methods
--   Expressions/Algebra      the operators & and | on conditions as operations on truth values
--   Models/Keys              src/aiodynamo/models.py: KeySchema and TableDescription._parse_key_schema
--   Models/Indexes, Tables   src/aiodynamo/models.py and types.py: throughput, indexes, streams,
--                            TableDescription and time to live
--   Models/Retry             src/aiodynamo/models.py: RetryConfig and its classes; utils.py: wait
--   Client/Request           src/aiodynamo/client.py: Client.send_request; Client/Request/Attempts is
--                            about it by what happens in each attempt, Configs with the classes
--                            of RetryConfig
--   Client/Pagination        src/aiodynamo/client.py: Client._depaginate and the loops over it;
--                            Client/Pagination/Prefetch is _depaginate as a generator, with its tasks
--   Client/Payloads          src/aiodynamo/client.py, operations.py and models.py: the payloads;
--                            Client/Payloads/Meaning is about what the expressions of a payload
--                            mean, read with the names and values of that payload, with
--                            those of the operations of a transaction in Meaning/Transactions, and
--                            Client/Payloads/Batches is about batches and Starting about the
--                            start key of a query
--   Client/Streams           src/aiodynamo/client.py: query, scan, count and scan_count
--   Client/Responses         src/aiodynamo/client.py: what the operations make of their responses, and
--                            the single pages; Client/Responses/Manual is a caller of single pages,
--                            Client/Responses/Storing a service that keeps items
--   Client/Tables, TimeToLive
--                            src/aiodynamo/client.py: tables and time to live, with their waits
--   Client/Table             src/aiodynamo/client.py: the classes Table and TimeToLive
--   Credentials/Keys, Chain, Providers, Metadata, Refresh, Refreshable, Fetch
--                            src/aiodynamo/credentials.py: Key, ChainCredentials, the other providers,
--                            check_refresh, Refreshable and fetch_with_retry_and_timeout;
--                            Credentials/Metadata/Server is about a service that wants a session token
--   Signing                  src/aiodynamo/sign.py; Signing/Server is how a service checks a signature
--   Http                     src/aiodynamo/http/types.py, aiohttp.py and httpx.py
--   Tests                    runs at concrete inputs
--
-- How they correspond: code that is handed the mutable `params` is a function from Parameters to a
-- result with new Parameters, or an exception. A text is a list of pieces, literal text and
-- placeholders; `show` is the string. A loop that awaits is a function on fuel over an environment
-- that says what each attempt gives. The loop of send_request ends with any fuel above the first
-- attempt at which the delays are exhausted or after which the time limit has passed; that of
-- _depaginate with fuel for as many requests as the server has pages, or above the number of a
-- request that ends it. Parameters of the model are the reader of numbers (`numeric_type`), the
-- clock, the delays and random draws, the HTTP calls, the hash functions, and the functions of yarl,
-- json, datetime and the INI parser that are called. In Refreshable the code between two awaits is one
-- step, and the event loop takes the steps of tasks and callers in any order; so it is with the
-- generator _depaginate, whose consumer may also be cancelled, or close it.
--
-- Not modelled: a number but for its text, its sign and the text of its negation; a set but for the
-- order in which it is iterated over; the repr of a value, which is given; JSON texts (a body is given
-- as what json.loads makes of it); floats as times (a time is a whole number of ticks); logging; the
-- cancellation of tasks, but in _depaginate.
pub mod Prelude
pub mod Errors
pub mod Values
pub mod Expressions
pub mod Http
pub mod Models
pub mod Client
pub mod Credentials
pub mod Signing
pub mod Tests
