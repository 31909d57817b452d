-- ===== src/Admin.antt =====
-- The admin console: nexra-dashboard/src/components/layout/AdminApp.js (the shell), with the pages
-- PlatformManagementPage.js, AnnouncementsPage.js and AdminTransactionsPage.js of
-- nexra-dashboard/src/pages in child modules.
pub mod Shell
pub mod Platform
pub mod Audience
pub mod Ledger
pub mod Access
mod Tests
