-- ===== src/Lib.antt =====
-- A model of the logic of the Garage admin console's frontend, frontend/src, with the theorems that
-- make it correct. The console is a React application in front of a Go proxy. What it decides
-- (whether a destructive repair may start, whether the cluster is fine, what a form stages or
-- sends, which upload starts next) stands in functions of frontend/src/lib, in frontend/src/api.ts
-- and in the state of some components of frontend/src/components. These are modelled; rendering,
-- queries and the backend are not.
--
-- Parts and files:
--   Base: shared names, lists on native numbers, JavaScript texts as lists of UTF-16 code units,
--     `Array.prototype.sort` as a stable insertion sort, `Map` and plain objects as entries in
--     insertion order.
--   Api: the response types of frontend/src/api.ts; absent and null are `none`.
--   Locale: the collations and number formats of the browser as a record of parameters. A
--     collation must order texts consistently; code unit order is an instance.
--   Nodes, BucketName: nodes.ts and bucket-name.ts, with shortId of format.ts.
--   Workers: workers.ts, states, filter and order of the worker list; Workers.Wanted says what the
--     filter asks for.
--   NodeList: node-list.ts, groups of nodes and, in NodeList.Connect, the connect form.
--   MaintenanceStatus: maintenance-status.ts, the verdict and what it was observed from, and in
--     MaintenanceStatus.Metrics the sums of metrics and the cards.
--   RepairGuard: repair-guard.ts. It reads FetchState of MaintenanceStatus, describe_state of
--     Workers and is_storage_node of Nodes. Early returns are the clauses of `proceed`; the loop
--     over the sorted storage nodes is `check_nodes`; the error that assertRepairAllowed throws is
--     an option, and the inputs it refetches are its argument.
--   LayoutDraft: layout-draft.ts. Object identity, which changeKind compares, is the constructor
--     of `Effective`. Floating-point parsing and rounding are the record `Floats`.
--   LayoutTracker: components/layout-update-tracker.tsx, steps and versions of a layout update.
--   AdminScopes, SortRows, Keys, ObjectBrowser, MultiResponse: admin-scopes.ts, sort.ts, keys.ts,
--     object-browser.ts and multi-response.ts.
--   Attention: attention.ts. Each check gives a report, and `then_check` puts two after one
--     another; `Date.parse` is a parameter, and instants are counted in milliseconds from the
--     earliest one that a date can hold.
--   InspectObject: inspect-object.ts, and the tabs of bucket-detail-tabs.ts. formatBytes of format.ts
--     is a parameter.
--   Json: JSON values; JSON.parse is a parameter of the code that calls it.
--   Http: the errors, the redirect and the request ends of api.ts, and loginUrlFor of auth.ts.
--   Uploads: the upload queue of components/object-browser.tsx. Its state is the component's state
--     and refs, with the promises that are not settled; each event handler and each end of a
--     request is an operation, Uploads.Reached.Step is one event, and React applies the updates of
--     an event before the next one. ObjectList: the object list of the same file, and in
--     ObjectList.Deletion what deletions leave selected, say and show next.
--   Combobox: components/combobox.tsx, its search, highlight and keys.
--   Rules: rules-json.ts and website-routing-rules.ts; Rules.Garage says what Garage accepts.
--   BucketSettings: components/bucket-settings.tsx. JavaScript's numbers are the record `Numbers`,
--     and the comparisons of stringified data are parameters.
--   Aliases: components/bucket-aliases.tsx. AdminScopes.Editor: components/admin-scope-editor.tsx.
--   Grants: permissions.ts and expiration.ts, with local dates as parameters.
--   Consequences, RepairOperations: consequences.ts and repair-operations.ts.
--   Witnesses: sample data, and each theorem at a concrete input.
--
-- Numbers are natural: counts, sizes and capacities are never negative in the answers (the numbers
-- that SortRows sorts and those that the forms parse are parameters), and where the source subtracts, a test before it bounds the result. All functions are structurally
-- recursive; the only fuel is that of `decimal`, which has one unit more than its number, and a
-- number has no more digits than that.
--
-- Not modelled: rendering, hooks and queries of the React components and routes; the Go backend; the
-- network and the browser themselves; time zones; formatting of sizes; the functions of api.ts that
-- only name a path and a body; the dialogs of the object browser.
pub mod Base
pub mod Api
pub mod Locale
pub mod Nodes
pub mod Workers
pub mod NodeList
pub mod MaintenanceStatus
pub mod RepairGuard
pub mod LayoutDraft
pub mod LayoutTracker
pub mod AdminScopes
pub mod SortRows
pub mod Http
pub mod Json
pub mod Rules
pub mod Uploads
pub mod Keys
pub mod RepairOperations
pub mod Combobox
pub mod Consequences
pub mod Grants
pub mod ObjectList
pub mod Aliases
pub mod ObjectBrowser
pub mod MultiResponse
pub mod BucketName
pub mod BucketSettings
pub mod Attention
pub mod InspectObject
pub mod Witnesses
