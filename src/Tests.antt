-- ===== src/Tests.antt =====
-- Services and settings for concrete runs, and the runs.
pub mod Fixture
mod WorkerRuns
mod SystemRuns
mod ShutdownRuns
mod ProgramRuns
mod DeliveryRuns
mod SenderRuns
mod TokenRuns
mod RouteRuns
mod Codec
mod EndToEndRuns
mod SmtpRuns
mod ApiRuns
mod AuthRuns
mod SendRuns
mod ConfigRuns
mod OauthRuns
