-- ===== src/World.antt =====
-- The state behind the services: the database's tables, the cache of memberships, the events that
-- were emitted, and the queue's jobs.
pub mod Accounts
pub mod Membership
pub mod Work
pub mod Delivery
pub mod Events
pub mod Tree
pub mod State
pub mod Cascade
pub use Accounts.{Uuid, Instant, Micros, Stamp, Email, User, RefreshToken}
pub use Membership.{Workspace, WorkspaceMember, WorkspaceInvitation}
pub use Work.{Project, Task, Comment}
pub use Delivery.{TaskActivity, CreateNotificationInput, Notification, Reminder}
pub use Events.{Event, Job}
pub use State.{CacheEntry, World}
