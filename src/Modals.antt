-- ===== src/Modals.antt =====
-- Three dialogs of nexra-dashboard/src/components: ReportBugModal.js, TourModal.js and
-- CompleteProfileModal.js.
pub mod BugReport
pub mod Tour
pub mod Profile
