-- ===== src/Team.antt =====
-- src/opentapeout/team.py and team_auth.py: the gateway through which a team sends signed commands.
pub mod Tokens
pub mod Access
pub mod Decisions
pub mod Gateway
pub mod Appends
pub mod Performed
pub mod Retry
pub mod Admitted
pub mod Permitted
pub mod Command
