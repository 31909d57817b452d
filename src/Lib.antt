-- ===== src/Lib.antt =====
-- The browser side of Nexra, a platform for bulk SMS: the customers' dashboard, parts of the admin
-- console and the public landing page. The backend, React, axios, the browser and the payment
-- pop-up are outside: what they answer is an argument of the definition that asks, or an event.
--
-- The parts and how they interact. Every request of the dashboard goes through the API client, which
-- refreshes an expired session; the sign-in state stores what the client sends; the router shows a
-- page for the address and the sign-in state. On the pages, the campaign wizard collects recipients
-- (from the lists of contacts, the segments, and the recipient selector), creates the campaign and
-- hands it to the broadcast checkout, whose buttons come back to the wizard. The contacts page keeps
-- the segments, the message history lists campaigns and opens the recipients drawer. Handlers report
-- by toasts. Phone numbers are normalized by one function that the selector and the lists share.
-- The sign-up forms open a session, the pricing page fills the wallet that the checkout reads, and
-- the sender names that a campaign goes out under are requested on one page and reviewed in the admin
-- console, whose shell routes to its own pages; its palette searches pages, users and messages. An
-- announcement that is posted there shows in the banner of the dashboard. The landing page is a
-- program of its own.
--
-- Which file models which part (paths from the repository's root):
--   Prelude      shared names; Boolean tests, lists over native numbers, texts of code units,
--                trimming and splitting
--   ApiClient    nexra-dashboard/src/api/client.js: both interceptors; a request in flight is a `Job`,
--                and `step` is what happens at its answer or at the answer to its refresh; in
--                ApiClient/Progress the answers are a relation between states
--   Auth         nexra-dashboard/src/contexts/AuthContext.js (names in _dashboard) and
--                nexra-dashboard/src/context/AuthContext.js (names in _admin)
--   Toasts       nexra-dashboard/src/context/ToastContext.js, its twin in src/contexts, and
--                src/components/ui/Toast.js
--   Router       nexra-dashboard/src/pages/App.js
--   Phone        nexra-dashboard/src/utils/phoneUtils.js
--   Checkout     nexra-dashboard/src/components/BroadcastCheckoutModal.js; Checkout/Doubles has the
--                arithmetic of its amounts
--   Wizard       nexra-dashboard/src/pages/CreateCampaignPage.js: Submit (handleSubmit,
--                handleBroadcastClick, confirmBroadcast), Steps (the four steps and the selection
--                modals), Session (what the session storage keeps), Preview (updatePreview and the
--                badge of the editor)
--   Recipients   nexra-dashboard/src/components/RecipientSelector.js
--   Contacts     nexra-dashboard/src/pages/ContactsPage.js: Csv (exportContactsToCSV), Dedupe (the
--                loop of fetchMembers and fetchContacts), Segments (SegmentDetailView), Directory
--                (GlobalContactsView, EditContactModal and ContactsPage itself)
--   Drawer       nexra-dashboard/src/components/RecipientsDrawer.js; in Drawer/Marks the selection is a
--                set of marks, and a quotient of the lists
--   Campaigns    nexra-dashboard/src/pages/CampaignsPage.js; Campaigns/Flow joins it with Checkout
--   Palette      nexra-dashboard/src/components/layout/CommandPalette.js
--   QuickSend    nexra-dashboard/src/components/QuickSendModal.js
--   Messages     nexra-dashboard/src/pages/MessagesPage.js; Messages/Badges also models the status
--                tables of CampaignsPage.js and RecipientsDrawer.js
--   SenderIds    nexra-dashboard/src/pages/SenderIDManagement.js: Requests (the handlers), Documents
--                (SenderIDVerificationPage.js), Review (AdminApprovalPage.js)
--   Pricing      nexra-dashboard/src/pages/PricingPage.js: Topup (handleTopup, verifyPayment and what
--                follows them), Events (what can happen, in any order)
--   Banner       nexra-dashboard/src/components/layout/AnnouncementBanner.js
--   Layout       nexra-dashboard/src/components/layout/DashboardLayout.js with its
--                NotificationDropdown.js; Layout/Search is src/components/ui/CommandPalette.js
--   Admin        the admin console: Shell (nexra-dashboard/src/components/layout/AdminApp.js),
--                Platform (PlatformManagementPage.js), Audience (AnnouncementsPage.js) and Ledger
--                (AdminTransactionsPage.js), the last three in nexra-dashboard/src/pages;
--                Admin/Access joins the shell with the sign-in
--   SignUp       nexra-dashboard/src/pages/RegisterPage.js and LoginPage.js
--   Templates    nexra-dashboard/src/pages/TemplatesPage.js
--   Modals       nexra-dashboard/src/components/ReportBugModal.js, TourModal.js and
--                CompleteProfileModal.js
--   Landing      nexra-landing/app.js, and nexra-landing/waitlist.js in Landing/Table
--
-- How the code is written down. A component's state hooks are the fields of a record; a handler is a
-- function from state to state with the names of the source. Requests and toasts are logged in
-- order. A handler that waits takes the answers as arguments and runs to its end; where the order of
-- answers matters (the API client, the payments, the drawer, the message history, the two searches,
-- the layout, the toasts) they are events, and a run is a list of events. A value that React keeps
-- from an earlier render is a field. A text is a list of UTF-16 code units; `toLowerCase` and
-- `toUpperCase` are arguments. Time is a number of milliseconds. An item of the session storage holds
-- the value that its text was made of.
--
-- Bounds and fuel. Numbers are natural numbers; a subtraction that could go below zero is guarded by
-- the code's own test. The amounts of the checkout and of the wallet are doubles, each written as its
-- multiple of 2^-1074, and products and quotients are rounded as doubles are (Checkout/Doubles); the
-- amounts of the transaction ledger are whole hundredths, without rounding. `parseFloat` is an
-- argument. The number of answers that open requests can take is bounded by a measure (three for a
-- fresh request), and recursion over them is on the proof that they run out. All functions recur on
-- their data except two: the reader of a row in Contacts/Csv/Reading, whose bound on the number of
-- fields is 4, the number that a row has, and the halving in Checkout/Doubles, whose bound is 2045,
-- enough for any double.
--
-- What is not modelled: markup and styles; the campaign to edit, while it is fetched; donations on
-- the landing page, whose amounts are floating-point numbers; the export of the message report; the
-- dashboard's charts, ranges of dates and titles of pages, the settings, and the admin pages that
-- only list what they fetch; the payment provider's script; the Python backend; built copies under
-- dist and superseded single-file scripts.
pub mod Admin
pub mod ApiClient
pub mod Auth
pub mod Banner
pub mod Campaigns
pub mod Checkout
pub mod Contacts
pub mod Drawer
pub mod Landing
pub mod Layout
pub mod Messages
pub mod Modals
pub mod Palette
pub mod Phone
pub mod Prelude
pub mod Pricing
pub mod QuickSend
pub mod Recipients
pub mod Router
pub mod SenderIds
pub mod SignUp
pub mod Templates
pub mod Toasts
pub mod Wizard
