-- ===== src/Ranking.antt =====
-- Lead-time paths, their days, their ranks and their labels: src/lead_time/calculator.py and
-- src/lead_time/path_ranker.py.
mod Paths
mod Calculator
mod Order
mod Labels
mod Picks
unfoldable pub use Paths.{
  rank_paths, assign_labels, composite_score, label_ranked, label_first, label_at, number_from,
}
pub use Paths.{
  LeadTimePath, Label, fastest, lowest_cost, safest, best_overall, backup, scores_at_least,
  fewer_days,
}
pub use Order.*
pub use Labels.{DistinctIds, unlabelled}
pub use Picks.{assign_labels_picks}
unfoldable pub use Calculator.{calculate_path_lead_time, calculation_of, first_stated}
pub use Calculator.{PacketDays, IsCalculated}
