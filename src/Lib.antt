-- ===== src/Lib.antt =====
-- gatus-sidecar watches annotated Kubernetes Services and Traefik routes and writes the endpoints
-- list of a Gatus configuration. This library models its packages under internal/ and its main
-- program.
--
-- The parts, in the order in which a change passes through them:
--   Discovery    internal/discovery: Annotations and Specs (annotations.go), Naming (naming.go), Paths
--                and Service (service.go), Rule (matcher.go), Entrypoints (entrypoints.go),
--                IngressRoute with Derive (ingressroute.go), IngressRouteTcp (ingressroutetcp.go).
--                An object becomes a list of Config.Endpoint.Endpoint.
--   Registry     internal/registry/registry.go: the endpoints by object (`entries`), the signal
--                (`changed`) and the mutex (`locked`). `set`, `delete`, `touch`, `snapshot` and `len`
--                are Set, Delete, Touch, Snapshot and Len; a call returns, panics or blocks.
--                Compare is equalEndpoints, Order the keys and their order.
--   Config       internal/config: Endpoint (endpoint.go), Merge (merge.go), Template and Resolve
--                (resolve.go and api/v1alpha1/endpointtemplate_types.go), Render (render.go), Writer
--                (writer.go). Rendering takes a snapshot and a template set and gives the list;
--                the writer publishes the document.
--   Controller   internal/controller: RenderLoop (`render` of render_loop.go), Wakeup (the loop of
--                `Start` together with the calls of the registry, as a step relation),
--                Startup (`Start` up to its loop), Reconcile (`Reconcile` of the four controllers, for
--                given answers of the API server),
--                Cluster (the client as a record of its answers, with the calls that `Reconcile` makes),
--                Primer (primer.go), Events (the maps from events to requests of the controllers),
--                Watches (their SetupWithManager), Metrics (metrics.go, with the calls of `render`),
--                TemplateStatus (template_status.go).
--   Main         cmd/gatus-sidecar/main.go: from the flags to the components. `run` stops where the
--                manager starts; TraefikServices is parseTraefikServices.
--   Value        the values of Go's `any` after a YAML or JSON decoder, with maps, float64 and int64.
--   Prelude      tests, Boolean equality, maps as association lists, sorting, Go's text functions.
-- Below a part's module, the modules named for a subject hold its lemmas and theorems, and Tests the
-- concrete inputs.
--
-- Conventions. A Go map is an association list, whose order stands for one order of iteration. A nil
-- slice or map is `none` where the program tells it from an empty one. Errors are values that keep what
-- their text is made of. A number that is read as an int64 has its range tested; a float64 is its 64
-- bits; an int32 that cannot be negative is an ℕ. Lower and upper case are those of ASCII letters.
-- Loops are structural recursion. `Config.Resolve.resolve` takes fuel, one more than the number of
-- templates, which is enough since the stack holds different templates. `Prelude.Text.decimal` takes
-- as much fuel as the number and one, and a number has fewer digits than that.
--
-- Parameters: the decoders of encoding/json and yaml.v3 and the encoder of yaml.v3, Traefik's rule
-- parser, the accessors of k8s.io/apimachinery, the lookup of a Service, `path.Match`, the patch of the
-- API server, the time, and the text of warnings and errors where it is compared or stored. What the
-- operating system refuses in a write is an argument, Config.Writer.Faults.
--
-- The client's answers do not change during a call of `Prime` or of `Reconcile`. What controller-runtime
-- documents of them is a hypothesis where it is used: a listing in a namespace is the full listing
-- filtered, and an event changes one object and is handed to the map functions with its old and its new
-- state (Controller.Events.Cache.IsCoherent and Happens). The REST mapper, the manager and the parser of
-- label selectors are Main.Libraries.
--
-- Not modelled: the parsing of the flags, logging and the process in cmd/gatus-sidecar/main.go; the
-- registration of metrics; generated code. In Wakeup, a render is two steps, and a call of Set that
-- panics is no step. What a watch reconciles while `Prime` sweeps is not interleaved with it.
pub mod Prelude
pub mod Value
pub mod Config
pub mod Registry
pub mod Discovery
pub mod Controller
pub mod Main
