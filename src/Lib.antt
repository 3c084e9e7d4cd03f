-- ===== src/Lib.antt =====
-- sofarpc-cli, an MCP server that calls SOFARPC services: a model of its core in Go.
--
-- The server plans a call, checks it against a policy, admits it through a limiter, encodes it with
-- Hessian into a BOLT frame, sends it, decodes the answer, and keeps the plan in a session for a
-- replay. The files model these parts:
--
--   Mcp/InvokeLimiter     internal/mcp/invoke_limiter.go: attempt is one round of Acquire under the
--                         mutex, release_func what releaseFunc returns. InvokeLimiter/System adds the
--                         permits and the waiting calls, and lets any of them go next.
--   Mcp/Session           internal/mcp/session.go: Create, Get, CapturePlan, PlanByID, with the
--                         expiry and the eviction that Create runs first.
--   BoltClient            internal/boltclient/client.go: SimpleMap has the header maps, Frame the
--                         request and response frames.
--   Wire                  internal/sofarpcwire: Writer has the scalar writers of encoder.go, Reader
--                         decoder_primitive.go, Utf8 what they use of unicode/utf8.
--                         Wire/Decoder is readValue of decoder.go: State has the limits and the
--                         tables, Scalars the tags of numbers and texts, Tables and Values the rest.
--                         Wire/Encoder has the values that writeValue of encoder.go takes and the
--                         table of object definitions, Encoder/Values writeValue with the writers
--                         that call it. Wire/RoundTrip joins writer and reader: Image says which
--                         values of the reader stand for one of the writer, Success which values
--                         the writer takes. Wire/Requests has what BuildGenericRequest of
--                         wire.go puts together before it encodes anything, Requests/Prepare
--                         PrepareArgs, Requests/Build the whole with its content.
--   Core/InvocationProps  internal/core/invocationprops/properties.go: Merge, Redact, Resolve, CheckEnv.
--   Core/Invoke           internal/core/invoke: Plan has the validation of plan.go, Policy policy.go,
--                         Direct direct.go and execute.go up to the call on the wire.
--   Core/Errcode          internal/errcode/errcode.go.
--   Mcp/Execution         internal/mcp/execution.go: the policy, the limiter and the call together.
--   Mcp/ContractHolder    internal/mcp/contract_holder.go: ForProject, with the eviction and the touch.
--   Core/Contract         internal/javamodel/types.go; Contract/Services has services.go of
--                         internal/core/contract.
--   JavaType              internal/javatype/role.go and placeholder.go: Classify with its walk over
--                         supertypes, and Placeholder.
--   Core/Target           internal/core/target/target.go: Resolve, with the stack of layers and
--                         the fields it reads; the trace and the explanation are left out.
--                         Target/Policy has the allowlists and the sources of invocation
--                         properties of the same file, Target/Address address.go.
--   Prelude               tests, lists, integers, strings and maps of Go, and what the proofs share.
--
-- Strings and slices are lists of bytes. A Go map is an association list, in the order in which a
-- range happens to visit it; the theorems hold for every order. A Go int is an integer without
-- bounds, except where the code converts it to a fixed width, which is written out. Loops with no
-- structural measure take fuel: the decoder of header maps as many rounds as it has bytes, and the
-- eviction of sessions as many as there are sessions; the eviction of projects twice as many as
-- its list has; the readers of chunked values one round more than they have bytes; readValue as
-- many as the limit of the depth, and one more; writeValue as many as its values are deep, which
-- BuildGenericRequest finds out first; the walk of Classify takes the fuel as an argument, since the
-- lookup of classes is outside, and nothing is claimed of a walk that runs out.
--
-- What the code takes from net, net/url, strings.EqualFold, strings.ToLower, fmt.Sprint, the
-- conversions of numbers in strconv and the environment is an argument of the definitions that
-- use it. A call of fmt.Sprint that does not return, as for a map that holds itself, is none, and
-- the reader then ends with stack_overflow, which stands for the end of the process.
--
-- Time, drawn ids and the size of a plan's JSON are arguments. Not modelled: sockets, deadlines,
-- files, JSON, the text of error messages, and the parts of the program that the
-- list above does not name.
pub mod Prelude
pub mod Mcp
pub mod Core
pub mod JavaType
pub mod Wire
pub mod BoltClient
mod Tests
